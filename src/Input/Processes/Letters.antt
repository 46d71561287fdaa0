-- ===== src/Input/Processes/Letters.antt =====
-- mecury/plugins/input/system/processes.go: which field a status of `ps` belongs to, by its letter.
use vgo.Prelude.{
  ℕ, zero, suc, subst, ◌≡◌, refl, ap, ◌∙◌, Bytes, codes, Bool, true, false, ◌&&◌, ◌||◌, List, [],
  ◌∷◌, equal, equal_iff, if◌then◌else◌, ◌==◌, inl, inr, Bool-cases, arith,
}
use vgo.Prelude.Int.{ℤ}
use vgo.Prelude.Words.{incr}
use vgo.Input.Processes.{ps_state}
use vgo.Input.Processes.Updates.{on_process, on_statuses}

-- A process with this letter is counted in the field of this name.
abbrev pub is_counted : (field : Bytes) → (letter : ℕ) → Bool
is_counted field letter =
    equal (codes "total") field
    || equal (codes "wait") field && letter == b'W'
    || equal (codes "blocked") field && (letter == b'U' || letter == b'D' || letter == b'L')
    || equal (codes "zombies") field && letter == b'Z'
    || equal (codes "stopped") field && letter == b'T'
    || equal (codes "running") field && letter == b'R'
    || equal (codes "sleeping") field && letter == b'S'
    || equal (codes "idle") field && letter == b'I'
    || equal (codes "unknown") field && letter == b'?'

-- How many of the statuses are counted in a field.
abbrev pub census : (field : Bytes) → List Bytes → ℕ
census field [] = 0
census field ([] ∷ statuses) = census field statuses
census field ((letter ∷ status) ∷ statuses) =
    let later = census field statuses in if is_counted field letter then suc later else later

-- Raised by one so many times, in int64 arithmetic.
abbrev pub raised : ℕ → ℤ → ℤ
raised zero v = v
raised (suc n) v = raised n (incr v)

on_process-total : (c : ℕ) (v : ℤ) → on_process (ps_state c) (codes "total") v ≡ incr v
unfolding ps_state equal
on_process-total c v = ground arith

on_process-other :
    (c : ℕ) (j : Bytes) (v : ℤ)
    → equal (codes "total") j ≡ false
    → on_process (ps_state c) j v ≡ (if is_counted j c then incr v else v)
unfolding ps_state
on_process-other c j v other = ground arith

on_process-counted :
    (c : ℕ) (j : Bytes) (v : ℤ)
    → on_process (ps_state c) j v ≡ (if is_counted j c then incr v else v)
unfolding equal
on_process-counted c j v = elim (Bool-cases (equal (codes "total") j)) [
  | inl same ↦
      let at = (equal_iff (codes "total") j).0 same in
      subst (λ j. on_process (ps_state c) j v ≡ (if is_counted j c then incr v else v)) at
        (on_process-total c v)
  | inr other ↦ on_process-other c j v other
]

raised_if :
    (counted : Bool) (n : ℕ) (v : ℤ)
    → raised n (if counted then incr v else v) ≡ raised (if counted then suc n else n) v
raised_if true n v = refl
raised_if false n v = refl

pub on_statuses-census :
    (statuses : List Bytes) (j : Bytes) (v : ℤ)
    → on_statuses statuses j v ≡ raised (census j statuses) v
on_statuses-census [] j v = refl
on_statuses-census ([] ∷ statuses) j v = on_statuses-census statuses j v
on_statuses-census ((c ∷ status) ∷ statuses) j v =
    on_statuses-census statuses j (on_process (ps_state c) j v)
    ∙ ap (raised (census j statuses)) (on_process-counted c j v)
    ∙ raised_if (is_counted j c) (census j statuses) v
