-- ===== src/Input/Processes/Updates.antt =====
-- mecury/plugins/input/system/processes.go: calls that change some of the fields, or panic for lack of one.
use vgo.Prelude.{
  ◌≡◌, refl, ap, ◌∙◌, Bytes, codes, Bool, true, false, ◌&&◌, List, [], ◌∷◌, Option, none, some,
  equal, equal_iff, equal_self, if◌then◌else◌, inl, inr, Bool-cases, Option-cases,
}
use mathlib.Core.Option
use vgo.Prelude.Dict.{Dict, lookup, insert, lookup-insert}
use vgo.Prelude.Int.{ℤ}
use vgo.Prelude.Words.{incr}
use vgo.Prelude.Outcome.{Outcome, returned, panicked, then_call}
use vgo.Input.Processes.{update, update_found, ps_state}

-- A change of the field with this name.
abbrev pub on : Bytes → (ℤ → ℤ) → Bytes → ℤ → ℤ
on name f j v = if equal name j then f v else v

abbrev pub on_state : Option Bytes → Bytes → ℤ → ℤ
on_state none j v = v
on_state (some name) j v = on name incr j v

-- What a process in a state does to the field `j`, and what all the statuses do.
abbrev pub on_process : Option Bytes → Bytes → ℤ → ℤ
on_process state j v = on (codes "total") incr j (on_state state j v)

abbrev pub on_status : Bytes → Bytes → ℤ → ℤ
on_status [] j v = v
on_status (c ∷ status) j v = on_process (ps_state c) j v

abbrev pub on_statuses : List Bytes → Bytes → ℤ → ℤ
on_statuses [] j v = v
on_statuses (status ∷ statuses) j v = on_statuses statuses j (on_status status j v)

-- Each field is what it was, changed by `f`; no field is new.
pub record Updated (f : Bytes → ℤ → ℤ) (fields m : Dict ℤ) : Type 0 where
  pub each : (j : Bytes) → lookup j m ≡ Option.map (f j) (lookup j fields)

-- The fields of the states are there.
abbrev pub is_there : Option ℤ → Bool
is_there none = false
is_there (some v) = true

abbrev pub state_there : Option Bytes → Dict ℤ → Bool
state_there none fields = true
state_there (some name) fields = is_there (lookup name fields)

abbrev pub states_there : List Bytes → Dict ℤ → Bool
states_there [] fields = true
states_there ([] ∷ statuses) fields = false
states_there ((c ∷ status) ∷ statuses) fields =
    state_there (ps_state c) fields && states_there statuses fields

map_twice :
    (f g : ℤ → ℤ) (o : Option ℤ) → Option.map g (Option.map f o) ≡ Option.map (λ v. g (f v)) o
map_twice f g none = refl
map_twice f g (some v) = refl

pub map_same : (o : Option ℤ) → o ≡ Option.map (λ v. v) o
map_same none = refl
map_same (some v) = refl

is_there-map : (f : ℤ → ℤ) (o : Option ℤ) → is_there (Option.map f o) ≡ is_there o
is_there-map f none = refl
is_there-map f (some v) = refl

pub Updated-trans :
    {f g : Bytes → ℤ → ℤ} {a b c : Dict ℤ}
    → Updated f a b
    → Updated g b c
    → Updated (λ j v. g j (f j v)) a c
Updated-trans {f = f} {g = g} {a = a} x y = record {
  each = λ j. y.each j ∙ ap (Option.map (g j)) (x.each j) ∙ map_twice (f j) (g j) (lookup j a);
}

pub Updated-there :
    {f : Bytes → ℤ → ℤ} {a b : Dict ℤ} (name : Bytes)
    → Updated f a b
    → is_there (lookup name b) ≡ is_there (lookup name a)
Updated-there {f = f} {a = a} name x =
    ap is_there (x.each name) ∙ is_there-map (f name) (lookup name a)

pub state_there-Updated :
    {f : Bytes → ℤ → ℤ} {a b : Dict ℤ} (state : Option Bytes)
    → Updated f a b
    → state_there state b ≡ state_there state a
state_there-Updated none x = refl
state_there-Updated (some name) x = Updated-there name x

pub states_there-Updated :
    {f : Bytes → ℤ → ℤ} {a b : Dict ℤ} (statuses : List Bytes)
    → Updated f a b
    → states_there statuses b ≡ states_there statuses a
states_there-Updated [] x = refl
states_there-Updated ([] ∷ statuses) x = refl
states_there-Updated ((c ∷ status) ∷ statuses) x =
    rw (state_there-Updated (ps_state c) x, states_there-Updated statuses x) refl

-- A call that returns with such a map, or panics for lack of a field.
pub data Counts (f : Bytes → ℤ → ℤ) (there : Bool) (fields : Dict ℤ) (r : Outcome (Dict ℤ))
    : Type 0 where
  counts :
      (m : Dict ℤ) → there ≡ true → r ≡ returned m → Updated f fields m → Counts f there fields r
  lacks : there ≡ false → r ≡ panicked → Counts f there fields r

map-on_other :
    (name : Bytes) (g : ℤ → ℤ) (j : Bytes)
    → equal name j ≡ false
    → (o : Option ℤ) → o ≡ Option.map (on name g j) o
map-on_other name g j other none = refl
map-on_other name g j other (some v) = rw other refl

lookup-update :
    (name : Bytes) (g : ℤ → ℤ) (v : ℤ) (fields : Dict ℤ)
    → lookup name fields ≡ some v
    → (j : Bytes) → lookup j (insert name (g v) fields) ≡ Option.map (on name g j) (lookup j fields)
lookup-update name g v fields e j = elim (Bool-cases (equal name j)) [
  | inl same ↦
      let at = (equal_iff name j).0 same in
      rw (lookup-insert name j (g v) fields, same, ← at, e, equal_self name) refl
  | inr other ↦
      lookup-insert name j (g v) fields
      ∙ ap (λ b. if b then some (g v) else lookup j fields) other
      ∙ map-on_other name g j other (lookup j fields)
]

pub update-Counts :
    (name : Bytes) (g : ℤ → ℤ) (fields : Dict ℤ)
    → Counts (on name g) (is_there (lookup name fields)) fields (update name g fields)
unfolding update update_found
update-Counts name g fields = elim (Option-cases (lookup name fields)) [
  | inl e ↦ lacks (ap is_there e) (ap (λ o. update_found name g o fields) e)
  | inr (v, e) ↦
      counts (insert name (g v) fields) (ap is_there e) (ap (λ o. update_found name g o fields) e)
        (record { each = λ j. lookup-update name g v fields e j })
]

pub then_call-Counts :
    {f g : Bytes → ℤ → ℤ} {a b : Bool} (fields : Dict ℤ) (r : Outcome (Dict ℤ))
    (next : Dict ℤ → Outcome (Dict ℤ))
    → Counts f a fields r
    → ((m : Dict ℤ) → Updated f fields m → Counts g b m (next m))
    → Counts (λ j v. g j (f j v)) (a && b) fields (then_call r next)
then_call-Counts {b = b} fields r next (lacks lack e) k =
    lacks (ap (λ x. x && b) lack) (ap (λ r. then_call r next) e)
then_call-Counts fields r next (counts m has e x) k = elim (k m x) [
  | lacks lack' e' ↦ lacks (rw (has, lack') refl) (ap (λ r. then_call r next) e ∙ e')
  | counts m' has' e' x' ↦
      counts m' (rw (has, has') refl) (ap (λ r. then_call r next) e ∙ e') (Updated-trans x x')
]
