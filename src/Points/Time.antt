-- ===== src/Points/Time.antt =====
-- misc/time.go, and GetPrecisionMultiplier of misc/points.go: timestamps as int64 nanoseconds.
-- A `time.Time` is its number of nanoseconds since the epoch.
pub mod Range
use vgo.Prelude.{
  ℕ, ◌+◌, ◌*◌, ◌/◌, Bytes, codes, equal, Bool, true, false, ◌&&◌, ◌||◌, Option, none, some,
  if◌then◌else◌, ltb, ◌==◌,
}
use vgo.Prelude.Int.{ℤ, pos, negsuc, pos_part, neg_part, sub_ℕ, ltb_ℤ, leb_ℤ, eqb_ℤ}
use vgo.Prelude.Words.{wrap64}

abbrev pub max_int64 : ℤ
max_int64 = pos 9223372036854775807

abbrev pub min_int64 : ℤ
min_int64 = negsuc 9223372036854775807

-- The product of two integers.
infixl 70 ◌*ℤ◌
unfoldable pub ◌*ℤ◌ : ℤ → ℤ → ℤ
a *ℤ b =
    sub_ℕ (pos_part a * pos_part b + neg_part a * neg_part b)
      (pos_part a * neg_part b + neg_part a * pos_part b)

-- `c / b` of int64: the quotient of the magnitudes, with the sign of the product.
unfoldable pub quot : ℤ → ℤ → ℤ
unfolding wrap64
quot c b =
    let q = (pos_part c + neg_part c) / (pos_part b + neg_part b) in
    let same_sign : Bool = elim c [
      | pos m ↦ elim b [ pos n ↦ true | negsuc n ↦ false ]
      | negsuc m ↦ elim b [ pos n ↦ false | negsuc n ↦ true ]
    ] in
    wrap64 (if same_sign then pos q else sub_ℕ 0 q)

-- `safeSignedMult`.
unfoldable pub safe_signed_mult : ℤ → ℤ → ℤ × Bool
unfolding ◌*ℤ◌ quot wrap64
safe_signed_mult a b =
    if eqb_ℤ a (pos 0) || eqb_ℤ b (pos 0) || eqb_ℤ a (pos 1) || eqb_ℤ b (pos 1)
    then (wrap64 (a *ℤ b), true)
    else if eqb_ℤ a min_int64 || eqb_ℤ b max_int64
    then (pos 0, false)
    else (wrap64 (a *ℤ b), eqb_ℤ (quot (wrap64 (a *ℤ b)) b) a)

-- `GetPrecisionMultiplier`.
unfoldable pub get_precision_multiplier : Bytes → ℤ
unfolding equal
get_precision_multiplier precision =
    if equal precision (codes "u")
    then pos 1000
    else if equal precision (codes "ms")
    then pos 1000000
    else if equal precision (codes "s")
    then pos 1000000000
    else if equal precision (codes "m")
    then pos 60000000000
    else if equal precision (codes "h")
    then pos 3600000000000
    else pos 1

-- `SafeCalcTime`; `none` is ErrTimeOutOfRange.
unfoldable pub safe_calc_time : ℤ → Bytes → Option ℤ
unfolding safe_signed_mult
safe_calc_time timestamp precision =
    let (t, ok) = safe_signed_mult timestamp (get_precision_multiplier precision) in
    if ok then some t else none

-- `CheckTime`; `false` is ErrTimeOutOfRange.
unfoldable pub check_time : ℤ → Bool
check_time t = if ltb_ℤ t min_int64 || ltb_ℤ max_int64 t then false else true
