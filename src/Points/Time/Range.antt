-- ===== src/Points/Time/Range.antt =====
-- Exactly the timestamps that fit int64 nanoseconds are accepted.
use vgo.Prelude.{
  ◌≡◌, inl, inr, Bytes, codes, equal, Bool-cases, Option, none, some, if◌then◌else◌, arith,
}
use vgo.Prelude.Int.{ℤ, pos}
use vgo.Prelude.Words.{wrap64, IsInt64}
use vgo.Points.Time.{
  ◌*ℤ◌, quot, safe_signed_mult, get_precision_multiplier, safe_calc_time, check_time,
}

-- What SafeCalcTime returns for a multiplier, and what it should return.
abbrev calc : ℤ → ℤ → Option ℤ
calc a b = if (safe_signed_mult a b).1 then some (safe_signed_mult a b).0 else none

abbrev pub in_range : ℤ → ℤ → Option ℤ
in_range a b = if check_time (a *ℤ b) then some (a *ℤ b) else none

abbrev IsExact : ℤ → Type 0
IsExact b = (a : ℤ) → IsInt64 a → calc a b ≡ in_range a b

IsExact-n : IsExact (pos 1)
unfolding safe_signed_mult check_time ◌*ℤ◌ quot wrap64
IsExact-n a h = ground arith

IsExact-u : IsExact (pos 1000)
unfolding safe_signed_mult check_time ◌*ℤ◌ quot wrap64
IsExact-u a h = ground arith

IsExact-ms : IsExact (pos 1000000)
unfolding safe_signed_mult check_time ◌*ℤ◌ quot wrap64
IsExact-ms a h = ground arith

IsExact-s : IsExact (pos 1000000000)
unfolding safe_signed_mult check_time ◌*ℤ◌ quot wrap64
IsExact-s a h = ground arith

IsExact-m : IsExact (pos 60000000000)
unfolding safe_signed_mult check_time ◌*ℤ◌ quot wrap64
IsExact-m a h = ground arith

IsExact-h : IsExact (pos 3600000000000)
unfolding safe_signed_mult check_time ◌*ℤ◌ quot wrap64
IsExact-h a h = ground arith

-- Every precision has one of six multipliers.
multiplier_cases :
    (P : ℤ → Type 0)
    → P (pos 1)
    → P (pos 1000)
    → P (pos 1000000)
    → P (pos 1000000000)
    → P (pos 60000000000)
    → P (pos 3600000000000)
    → (precision : Bytes) → P (get_precision_multiplier precision)
unfolding get_precision_multiplier
multiplier_cases P n u ms s m h precision = elim (Bool-cases (equal precision (codes "u"))) [
  | inl e ↦ rw e u
  | inr e₁ ↦ elim (Bool-cases (equal precision (codes "ms"))) [
    | inl e ↦ rw (e₁, e) ms
    | inr e₂ ↦ elim (Bool-cases (equal precision (codes "s"))) [
      | inl e ↦ rw (e₁, e₂, e) s
      | inr e₃ ↦ elim (Bool-cases (equal precision (codes "m"))) [
        | inl e ↦ rw (e₁, e₂, e₃, e) m
        | inr e₄ ↦ elim (Bool-cases (equal precision (codes "h"))) [
          | inl e ↦ rw (e₁, e₂, e₃, e₄, e) h
          | inr e ↦ rw (e₁, e₂, e₃, e₄, e) n
        ]
      ]
    ]
  ]
]

-- For an int64 timestamp and any precision SafeCalcTime returns the exact product with the
-- multiplier if that is an int64, and otherwise the error: no wrapped product is let through, and
-- none that fits is refused.
pub safe_calc_time-eq :
    (timestamp : ℤ) (precision : Bytes)
    → IsInt64 timestamp
    → safe_calc_time timestamp precision ≡ in_range timestamp (get_precision_multiplier precision)
unfolding safe_calc_time
safe_calc_time-eq timestamp precision h =
    multiplier_cases IsExact IsExact-n IsExact-u IsExact-ms IsExact-s IsExact-m IsExact-h precision
      timestamp h
