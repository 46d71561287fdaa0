-- ===== src/Input/Mysql/Threads/Counted.antt =====
-- mecury/plugins/input/mysql/mysql.go: which states the threads are counted under, and how many.
use vgo.Prelude.{
  ℕ, ◌+◌, ◌%◌, ◌^◌, ◌≡◌, refl, ap, ap₂, subst, ◌∙◌, ◌++◌, equal_comm, equal_self, Bytes, codes,
  Bool, true, false, ◌&&◌, List, [], ◌∷◌, map, Option, none, some, equal, equal_iff, if◌then◌else◌,
  ◌==◌, inl, inr, Bool-cases, arith,
}
use vgo.Prelude.Dict.{Dict, lookup, insert, DistinctKeys}
use vgo.Input.Mysql.{row, Gathered, new_namespace}
use vgo.Input.Mysql.Tables.{general_thread_states}
use vgo.Input.Mysql.Threads.{
  Process, find_thread_state, add_count, count_or_zero, thread_fields, count_rows, threads_added,
  gather_process_list_statuses,
}
use vgo.Input.Mysql.Threads.States.{IsGeneral, and_both, find_thread_state-IsGeneral}

-- The threads that the rows count for a state.
abbrev pub threads_in : Bytes → List Process → ℕ
threads_in s [] = 0
threads_in s (p ∷ ps) =
    (if equal (find_thread_state p.command p.state) s then p.count else 0) + threads_in s ps

-- Each state of a table with so many threads, in uint32 arithmetic.
abbrev counted_by : (Bytes → ℕ) → Dict ℕ → Dict ℕ
counted_by base [] = []
counted_by base ((s, n) ∷ m) = (s, base s % 2 ^ 32) ∷ counted_by base m

-- So many threads more in one state.
abbrev raised : (Bytes → ℕ) → Bytes → ℕ → Bytes → ℕ
raised base state c s = base s + (if equal state s then c else 0)

lookup-counted_by :
    (base : Bytes → ℕ) (s : Bytes) (m : Dict ℕ) {n : ℕ}
    → lookup s m ≡ some n
    → lookup s (counted_by base m) ≡ some (base s % 2 ^ 32)
unfolding lookup
lookup-counted_by base s [] e = cc
lookup-counted_by base s ((k, v) ∷ m) e = elim (Bool-cases (equal k s)) [
  | inl here ↦ let at = (equal_iff k s).0 here in rw here (ap (λ k. some (base k % 2 ^ 32)) at)
  | inr further ↦ rw further (lookup-counted_by base s m (rw further at e))
]

counted_by-other :
    (base : Bytes → ℕ) (state : Bytes) (c : ℕ) (m : Dict ℕ)
    → lookup state m ≡ none
    → counted_by base m ≡ counted_by (raised base state c) m
unfolding lookup
counted_by-other base state c [] e = refl
counted_by-other base state c ((k, v) ∷ m) e = elim (Bool-cases (equal k state)) [
  | inl here ↦ cc (rw here at e)
  | inr further ↦
      let rest = counted_by-other base state c m (rw further at e) in
      let same : base k ≡ base k + 0 = omega arith in
      rw (equal_comm state k, further, ← same) (ap (λ r. (k, base k % 2 ^ 32) ∷ r) rest)
]

insert-counted_by :
    (base : Bytes → ℕ) (state : Bytes) (c : ℕ) (m : Dict ℕ) {n : ℕ}
    → DistinctKeys m
    → lookup state m ≡ some n
    → insert state ((base state % 2 ^ 32 + c) % 2 ^ 32) (counted_by base m)
      ≡ counted_by (raised base state c) m
unfolding lookup insert
insert-counted_by base state c [] d e = cc
insert-counted_by base state c ((k, v) ∷ m) d e = elim (Bool-cases (equal k state)) [
  | inl here ↦
      let at = (equal_iff k state).0 here in
      let sum : (base state % 2 ^ 32 + c) % 2 ^ 32 ≡ (base state + c) % 2 ^ 32 = omega arith in
      let rest = counted_by-other base state c m (subst (λ k. lookup k m ≡ none) at d.0) in
      let first : ℕ → Dict ℕ → Dict ℕ = λ v r. (state, v) ∷ r in
      rw (at, equal_self state) (ap₂ first (ap (λ v. v) sum) rest)
  | inr further ↦
      let rest = insert-counted_by base state c m d.1 (rw further at e) in
      let same : base k ≡ base k + 0 = omega arith in
      rw (further, equal_comm state k, further, ← same) (ap (λ r. (k, base k % 2 ^ 32) ∷ r) rest)
]

is_absent : Option ℕ → Bool
is_absent none = true
is_absent (some n) = false

absent-none : (o : Option ℕ) → is_absent o ≡ true → o ≡ none
unfolding is_absent
absent-none none h = refl
absent-none (some n) h = cc

all_distinct : Dict ℕ → Bool
all_distinct [] = true
all_distinct ((k, v) ∷ m) = is_absent (lookup k m) && all_distinct m

all_distinct-DistinctKeys : (m : Dict ℕ) → all_distinct m ≡ true → DistinctKeys m
unfolding all_distinct
all_distinct-DistinctKeys [] h = tt
all_distinct-DistinctKeys ((k, v) ∷ m) h =
    let both = and_both (is_absent (lookup k m)) (all_distinct m) h in
    (absent-none (lookup k m) both.0, all_distinct-DistinctKeys m both.1)

distinct_states : DistinctKeys general_thread_states
unfolding all_distinct is_absent lookup equal
distinct_states = all_distinct-DistinctKeys general_thread_states refl

add_count-counted_by :
    (base : Bytes → ℕ) (state : Bytes) (c : ℕ)
    → IsGeneral state
    → add_count state c (counted_by base general_thread_states)
      ≡ counted_by (raised base state c) general_thread_states
unfolding add_count count_or_zero
add_count-counted_by base state c known =
    rw (lookup-counted_by base state general_thread_states known.listed)
      (insert-counted_by base state c general_thread_states distinct_states known.listed)

counted_by-same :
    {f g : Bytes → ℕ} (m : Dict ℕ) → ((s : Bytes) → f s ≡ g s) → counted_by f m ≡ counted_by g m
counted_by-same [] same = refl
counted_by-same ((k, v) ∷ m) same = rw (same k, counted_by-same m same) refl

-- The name of the field of a state.
abbrev underscored : Bytes → Bytes
underscored s = map (λ c. if c == b' ' then b'_' else c) s

-- The field of each state of a table, with so many threads, in uint32 arithmetic.
abbrev pub thread_counts : (Bytes → ℕ) → Dict ℕ → Dict ℕ
thread_counts base [] = []
thread_counts base ((s, n) ∷ m) =
    (codes "threads_" ++ underscored s, base s % 2 ^ 32) ∷ thread_counts base m

thread_fields-counted_by :
    (base : Bytes → ℕ)
    → thread_fields (counted_by base general_thread_states) []
      ≡ thread_counts base general_thread_states
unfolding thread_fields insert equal new_namespace
thread_fields-counted_by base = refl

-- One call, with the field of each state of the table, and no other field.
abbrev pub IsTallied : {Error : Type 0} → Bytes → List Process → Gathered ℕ Error → Type 0
IsTallied servtag ps r = r ≡ record {
  added =
      record {
        measurement = codes "mysql_info_schema";
        fields = thread_counts (λ s. threads_in s ps) general_thread_states;
        tags = (codes "server", servtag) ∷ [];
      }
      ∷ [];
  error = none;
}

module _ {Error : Type 0} where
  count_rows-counted_by :
      (servtag : Bytes) (ps : List Process) (base : Bytes → ℕ)
      → count_rows {Error = Error} servtag (counted_by base general_thread_states) (map row ps)
        ≡ threads_added servtag (counted_by (λ s. base s + threads_in s ps) general_thread_states)
  unfolding count_rows
  count_rows-counted_by servtag [] base =
      ap (threads_added servtag)
        (counted_by-same {f = base} {g = λ s. base s + 0} general_thread_states (λ s. omega arith))
  count_rows-counted_by servtag (p ∷ ps) base =
      let state = find_thread_state p.command p.state in
      let known = find_thread_state-IsGeneral p.command p.state in
      ap (λ m. count_rows servtag m (map row ps)) (add_count-counted_by base state p.count known)
      ∙ count_rows-counted_by servtag ps (raised base state p.count)
      ∙ ap (threads_added servtag) (
          counted_by-same {f = λ s. raised base state p.count s + threads_in s ps}
            {g = λ s. base s + threads_in s (p ∷ ps)} general_thread_states (λ s. omega arith))

  -- If the query succeeds and each row can be read, GatherProcessListStatuses makes one call, with
  -- the measurement mysql_info_schema, the server's tag, and exactly the states of the table as
  -- fields, under threads_ and the state with underscores, whatever the commands and the states of
  -- the rows; each has the sum of the counts of the rows that findThreadState maps to its state, in
  -- uint32 arithmetic.
  pub gather_process_list-IsTallied :
      (servtag : Bytes) (ps : List Process)
      → IsTallied {Error = Error} servtag ps
          (gather_process_list_statuses servtag none (map row ps))
  unfolding gather_process_list_statuses threads_added
  gather_process_list-IsTallied servtag ps =
      count_rows-counted_by servtag ps (λ _. 0)
      ∙ ap (threads_added servtag) (
          counted_by-same {f = λ s. 0 + threads_in s ps} {g = λ s. threads_in s ps}
            general_thread_states (λ s. omega arith))
      ∙ ap
          (λ fields. record {
            added =
                record {
                  measurement = codes "mysql_info_schema";
                  fields = fields;
                  tags = (codes "server", servtag) ∷ [];
                }
                ∷ [];
            error = none;
          })
          (thread_fields-counted_by (λ s. threads_in s ps))
