-- ===== src/Input/Processes/Census.antt =====
-- mecury/plugins/input/system/processes.go: what gatherFromPS counts, and when it panics.
use vgo.Prelude.{
  ◌≡◌, ◌≢◌, refl, ap, sym, subst, ◌∙◌, Bytes, codes, Bool, true, false, ◌&&◌, List, [], ◌∷◌, Option,
  none, some, ◌⊎◌, inl, inr, equal, equal_iff, if◌then◌else◌, Bool-cases,
}
use mathlib.Core.Option
use vgo.Input.Processes.Letters.{raised, census, on_statuses-census}
use vgo.Prelude.Dict.{Dict, lookup}
use vgo.Prelude.Int.{ℤ}
use vgo.Prelude.Words.{incr}
use vgo.Prelude.Outcome.{Outcome, returned, panicked, then_call}
use vgo.Input.Processes.{
  update, count_state, count_process, count_status, count_statuses, ps_state, output, Result,
  gathered, gathered_all, gather_from_ps, skip_header, fields_of_bytes,
}
use vgo.Input.Processes.Updates.{
  on, on_state, on_process, on_statuses, is_there, state_there, states_there, Counts, counts, lacks,
  Updated-there, states_there-Updated, update-Counts, then_call-Counts, map_same,
}

count_state-Counts :
    (state : Option Bytes) (fields : Dict ℤ)
    → Counts (on_state state) (state_there state fields) fields (count_state state fields)
unfolding count_state
count_state-Counts none fields =
    counts fields refl refl (record { each = λ j. map_same (lookup j fields) })
count_state-Counts (some name) fields = update-Counts name incr fields

-- The total is there.
abbrev pub total_there : Dict ℤ → Bool
total_there fields = is_there (lookup (codes "total") fields)

and_true : (b : Bool) → (b && true) ≡ b
and_true true = refl
and_true false = refl

pub count_process-Counts :
    (state : Option Bytes) (fields : Dict ℤ)
    → total_there fields ≡ true
    → Counts (on_process state) (state_there state fields) fields (count_process state fields)
unfolding count_process
count_process-Counts state fields total =
    subst (λ b. Counts (on_process state) b fields (count_process state fields))
      (and_true (state_there state fields))
      (then_call-Counts fields (count_state state fields) (update (codes "total") incr)
        (count_state-Counts state fields)
        (λ m x.
          subst (λ b. Counts (on (codes "total") incr) b m (update (codes "total") incr m))
            (Updated-there (codes "total") x ∙ total) (update-Counts (codes "total") incr m)))

count_statuses-Counts :
    (statuses : List Bytes) (fields : Dict ℤ)
    → total_there fields ≡ true
    → Counts
        (on_statuses statuses)
        (states_there statuses fields)
        fields
        (count_statuses statuses fields)
unfolding count_statuses count_status
count_statuses-Counts [] fields total =
    counts fields refl refl (record { each = λ j. map_same (lookup j fields) })
count_statuses-Counts ([] ∷ statuses) fields total = lacks refl refl
count_statuses-Counts ((c ∷ status) ∷ statuses) fields total =
    then_call-Counts fields (count_process (ps_state c) fields) (count_statuses statuses)
      (count_process-Counts (ps_state c) fields total)
      (λ m x.
        subst (λ b. Counts (on_statuses statuses) b m (count_statuses statuses m))
          (states_there-Updated statuses x)
          (count_statuses-Counts statuses m (Updated-there (codes "total") x ∙ total)))

abbrev pub NoHeader : List Bytes → Type 0
NoHeader [] = Unit
NoHeader (status ∷ statuses) = status ≢ codes "STAT"

-- The output of `ps`: words, the first of which may be its header, and then a status each.
abbrev pub IsListing : (words statuses : List Bytes) → Type 0
IsListing words statuses =
    (words ≡ codes "STAT" ∷ statuses) ⊎ ((words ≡ statuses) × NoHeader statuses)

skip_header-IsListing :
    (words statuses : List Bytes) → IsListing words statuses → skip_header words ≡ statuses
unfolding skip_header equal
skip_header-IsListing words statuses (inl headed) = ap skip_header headed
skip_header-IsListing words [] (inr (same, plain)) = ap skip_header same
skip_header-IsListing words (status ∷ statuses) (inr (same, plain)) =
    ap skip_header same ∙ ap (λ b. if b then statuses else status ∷ statuses) (other status plain)
  where
    other : (s : Bytes) → s ≢ codes "STAT" → equal s (codes "STAT") ≡ false
    other s ne = elim (Bool-cases (equal s (codes "STAT"))) [
      | inl same ↦ absurd (ne ((equal_iff s (codes "STAT")).0 same))
      | inr further ↦ further
    ]

-- What gatherFromPS leaves of the fields for these statuses: each field is raised by as many as
-- there are statuses counted in it, and no field is new.
pub record IsCensus {Error : Type 0} (statuses : List Bytes) (fields : Dict ℤ)
    (r : Outcome (Result Error)) : Type 0 where
  pub after : Dict ℤ
  pub ends : r ≡ returned (gathered after)
  pub counted :
      (j : Bytes)
      → lookup j after ≡ Option.map (λ v. raised (census j statuses) v) (lookup j fields)

true_not_false : true ≢ false
true_not_false e = cc

same_change :
    {f g : ℤ → ℤ} → ((v : ℤ) → f v ≡ g v) → (o : Option ℤ) → Option.map f o ≡ Option.map g o
same_change same none = refl
same_change same (some v) = ap some (same v)

ended-IsCensus :
    {Error : Type 0} (statuses : List Bytes) (fields : Dict ℤ) (r : Outcome (Dict ℤ))
    → Counts (on_statuses statuses) (states_there statuses fields) fields r
    → states_there statuses fields ≡ true
    → IsCensus statuses fields (then_call r (gathered_all {Error = Error}))
unfolding gathered_all
ended-IsCensus statuses fields r (counts m has e x) there = record {
  after = m;
  ends = ap (λ r. then_call r gathered_all) e;
  counted = λ j. x.each j ∙ same_change (on_statuses-census statuses j) (lookup j fields);
}
ended-IsCensus statuses fields r (lacks lack e) there = absurd (true_not_false (sym there ∙ lack))

ended_panics :
    {Error : Type 0} (statuses : List Bytes) (fields : Dict ℤ) (r : Outcome (Dict ℤ))
    → Counts (on_statuses statuses) (states_there statuses fields) fields r
    → states_there statuses fields ≡ false
    → then_call r (gathered_all {Error = Error}) ≡ panicked
ended_panics statuses fields r (counts m has e x) lack = absurd (true_not_false (sym has ∙ lack))
ended_panics statuses fields r (lacks _ e) lack = ap (λ r. then_call r gathered_all) e

-- On the words of what `ps` printed, the first of which may be the header STAT, and fields that have
-- a total and the field of each known state among the statuses, gatherFromPS returns, without a
-- panic, the fields raised by one for each status in int64 arithmetic: wait for a W, blocked for a
-- U, D or L, zombies for a Z, stopped for a T, running for an R, sleeping for an S, idle for an I,
-- unknown for a question mark, and the total for every status. It adds no field.
pub gather_from_ps-IsCensus :
    {Error : Type 0} (out : Bytes) (statuses : List Bytes) (fields : Dict ℤ)
    → IsListing (fields_of_bytes out) statuses
    → total_there fields ≡ true
    → states_there statuses fields ≡ true
    → IsCensus {Error = Error} statuses fields (gather_from_ps (output out) fields)
unfolding gather_from_ps
gather_from_ps-IsCensus {Error = Error} out statuses fields listing total there =
    subst
      (λ s.
        IsCensus {Error = Error} statuses fields (then_call (count_statuses s fields) gathered_all))
      (sym (skip_header-IsListing (fields_of_bytes out) statuses listing))
      (ended-IsCensus statuses fields (count_statuses statuses fields)
        (count_statuses-Counts statuses fields total) there)

-- gatherFromPS panics if `ps` printed a known state for which the fields, which have a total, have
-- no field.
pub gather_from_ps_panics :
    {Error : Type 0} (out : Bytes) (fields : Dict ℤ)
    → total_there fields ≡ true
    → states_there (skip_header (fields_of_bytes out)) fields ≡ false
    → gather_from_ps {Error = Error} (output out) fields ≡ panicked
unfolding gather_from_ps
gather_from_ps_panics out fields total lack =
    let statuses = skip_header (fields_of_bytes out) in
    ended_panics statuses fields (count_statuses statuses fields)
      (count_statuses-Counts statuses fields total) lack
