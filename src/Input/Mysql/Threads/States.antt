-- ===== src/Input/Mysql/Threads/States.antt =====
-- mecury/plugins/input/mysql/mysql.go: findThreadState finds states that are counted.
use vgo.Prelude.{
  ℕ, ◌≡◌, refl, ap, sym, ◌∙◌, Bytes, codes, Bool, true, false, ◌&&◌, [], ◌∷◌, Option, none, some,
  equal, if◌then◌else◌, ◌==◌, ==_iff, inl, inr, Bool-cases, both-if, arith,
}
use vgo.Prelude.Dict.{Dict, lookup}
use vgo.Input.Mysql.Tables.{general_thread_states, state_status_mappings}
use vgo.Input.Mysql.Threads.{find_thread_state, known_state, plain_state, state_of_command, normal}

-- A state that is counted.
pub record IsGeneral (s : Bytes) : Type 0 where
  pub listed : lookup s general_thread_states ≡ some 0

-- A test of all the values of a table.
value_test {ℓ} : {V : Type ℓ} → (V → Bool) → Option V → Bool
value_test test none = true
value_test test (some v) = test v

all_values {ℓ} : {V : Type ℓ} → (V → Bool) → Dict V → Bool
all_values test [] = true
all_values test ((k, v) ∷ m) = test v && all_values test m

pub and_both : (a b : Bool) → (a && b) ≡ true → (a ≡ true) × (b ≡ true)
and_both true b h = (refl, h)
and_both false b h = cc

lookup-all_values {ℓ} :
    {V : Type ℓ} (test : V → Bool) (m : Dict V) (s : Bytes) {v : V}
    → all_values test m ≡ true
    → lookup s m ≡ some v
    → test v ≡ true
unfolding all_values lookup value_test
lookup-all_values test [] s h e = cc
lookup-all_values test ((k, w) ∷ m) s {v = v} h e =
    let both = and_both (test w) (all_values test m) h in
    elim (Bool-cases (equal k s)) [
      | inl here ↦
          let e' : some w ≡ some v = sym (ap (λ b. if b then some w else lookup s m) here) ∙ e in
          ap (λ o. value_test test o) (sym e') ∙ both.0
      | inr further ↦
          let e' : lookup s m ≡ some v =
            sym (ap (λ b. if b then some w else lookup s m) further) ∙ e in
          lookup-all_values test m s both.1 e'
    ]

abbrev is_zero : Option ℕ → Bool
is_zero none = false
is_zero (some n) = n == 0

is_zero-some : (o : Option ℕ) → is_zero o ≡ true → o ≡ some 0
is_zero-some none h = cc
is_zero-some (some n) h = ground arith

-- Two facts about the tables: the counts are zero, and the plain states are mapped to counted ones.
known-IsGeneral : (s : Bytes) {n : ℕ} → lookup s general_thread_states ≡ some n → IsGeneral s
unfolding all_values
known-IsGeneral s {n = n} e =
    let zero_there = lookup-all_values (λ v. v == 0) general_thread_states s refl e in
    record { listed = e ∙ ap some ((==_iff n 0).0 zero_there) }

abbrev is_general : Bytes → Bool
is_general s = is_zero (lookup s general_thread_states)

general : (s : Bytes) → is_general s ≡ true → IsGeneral s
general s h = record { listed = is_zero-some (lookup s general_thread_states) h }

mapped-IsGeneral :
    (state : Bytes) {s : Bytes} → lookup state state_status_mappings ≡ some s → IsGeneral s
unfolding all_values lookup equal
mapped-IsGeneral state {s = s} e =
    general s (lookup-all_values is_general state_status_mappings state refl e)

state_of_command-IsGeneral : (command state : Bytes) → IsGeneral (state_of_command command state)
unfolding state_of_command lookup equal
state_of_command-IsGeneral command state =
    both-if IsGeneral _ (general (codes "waiting for lock") refl) (
      both-if IsGeneral _ (general (codes "idle") refl) (
        both-if IsGeneral _ (general (codes "executing") refl) (
          both-if IsGeneral _ (general (codes "replication master") refl)
            (general (codes "other") refl))))

plain_state-IsGeneral :
    (o : Option Bytes) (command state : Bytes)
    → lookup state state_status_mappings ≡ o
    → IsGeneral (plain_state o command state)
unfolding plain_state
plain_state-IsGeneral none command state e = state_of_command-IsGeneral command state
plain_state-IsGeneral (some mapped) command state e = mapped-IsGeneral state e

known_state-IsGeneral :
    (o : Option ℕ) (command state : Bytes)
    → lookup state general_thread_states ≡ o
    → IsGeneral (known_state o command state)
unfolding known_state
known_state-IsGeneral none command state e =
    plain_state-IsGeneral (lookup state state_status_mappings) command state refl
known_state-IsGeneral (some count) command state e = known-IsGeneral state e

pub find_thread_state-IsGeneral :
    (command state : Bytes) → IsGeneral (find_thread_state command state)
unfolding find_thread_state
find_thread_state-IsGeneral command state =
    known_state-IsGeneral (lookup (normal state) general_thread_states) (normal command)
      (normal state) refl
