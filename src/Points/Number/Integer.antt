-- ===== src/Points/Number/Integer.antt =====
-- Integers in the fields of a line, as scanNumber of misc/points.go reads them.
use vgo.Prelude.{
  ℕ, suc, ◌+◌, ◌-◌, ◌*◌, ◌^◌, ◌≤◌, ◌<◌, Bytes, Bool, true, false, ◌&&◌, ◌||◌, ◌==◌, leb, ◌≡◌, refl,
  ap, sym, subst, ◌∙◌, arith, [], ◌∷◌, ◌++◌, length, length-append, take, get_or, if◌then◌else◌,
  Bool-cases, inl, inr,
}
use native.Mathlib.Nat.{mul-le-mul_right, pow-le-pow_right, mul_assoc}
use vgo.Points.Number.{
  is_digit, is_numeric, all_digits, decimal_value, decimal_digits, parses_int, Number, past_byte,
  one_if, scan_loop, is_number, scan_number,
}

-- A comma or a space is next, or nothing.
abbrev pub stops : Bytes → Bool
stops [] = true
stops (c ∷ s) = c == b',' || c == b' '

-- What the loop leaves behind this block of an integer.
abbrev pub int_of : Bytes → Bytes → Number
int_of block rest = record {
  block = block;
  rest = rest;
  ok = true;
  is_int = true;
  is_decimal = false;
  is_scientific = false;
}

scan_loop-stops :
    (prev : ℕ) (rest : Bytes)
    → stops rest ≡ true
    → scan_loop false prev true false false rest ≡ int_of [] rest
unfolding scan_loop
scan_loop-stops prev [] h = refl
scan_loop-stops prev (c ∷ s) h = rw h refl

scan_loop-suffix :
    (prev : ℕ) (rest : Bytes)
    → stops rest ≡ true
    → scan_loop false prev false false false (b'i' ∷ rest) ≡ int_of (b'i' ∷ []) rest
unfolding scan_loop
scan_loop-suffix prev rest h = rw (scan_loop-stops b'i' rest h) refl

-- None of the other branches takes a digit.
record IsPlain (c : ℕ) : Type 0 where
  no_stop : (c == b',' || c == b' ') ≡ false
  no_suffix : (c == b'i') ≡ false
  no_point : (c == b'.') ≡ false
  no_exponent : (c == b'e' || c == b'E') ≡ false
  no_sign : (c == b'+' || c == b'-') ≡ false
  no_nan : (c == b'N' || c == b'n') ≡ false

digit-IsPlain : (c : ℕ) → is_digit c ≡ true → IsPlain c
unfolding is_digit is_numeric
digit-IsPlain c h = record {
  no_stop = ground arith;
  no_suffix = ground arith;
  no_point = ground arith;
  no_exponent = ground arith;
  no_sign = ground arith;
  no_nan = ground arith;
}

and_false : (b : Bool) → (b && false) ≡ false
and_false true = refl
and_false false = refl

scan_loop-digit :
    (at_start : Bool) (prev c : ℕ) (s : Bytes)
    → is_digit c ≡ true
    → scan_loop at_start prev false false false (c ∷ s)
      ≡ past_byte c (scan_loop false c false false false s)
unfolding scan_loop
scan_loop-digit true prev c s h =
    let p = digit-IsPlain c h in
    let nan = and_false (leb 2 (length s)) in
    rw (p.no_stop, p.no_suffix, p.no_point, p.no_sign, p.no_nan, h, nan) refl
scan_loop-digit false prev c s h =
    let p = digit-IsPlain c h in
    let nan = and_false (leb 2 (length s)) in
    rw (p.no_stop, p.no_suffix, p.no_point, p.no_exponent, p.no_sign, p.no_nan, h, nan) refl

scan_loop-digits :
    (prev : ℕ) (ds rest : Bytes)
    → all_digits ds ≡ true
    → stops rest ≡ true
    → scan_loop false prev false false false (ds ++ b'i' ∷ rest) ≡ int_of (ds ++ b'i' ∷ []) rest
unfolding all_digits
scan_loop-digits prev [] rest h e = scan_loop-suffix prev rest e
scan_loop-digits prev (d ∷ ds) rest h e = elim (Bool-cases (is_digit d)) [
  | inl digit ↦
      scan_loop-digit false prev d (ds ++ b'i' ∷ rest) digit
      ∙ ap (past_byte d) (scan_loop-digits d ds rest (rw digit at h) e)
  | inr other ↦ (let refused : false ≡ true = rw other at h in absurd (ground arith))
]

decimal_value-lt :
    (n : ℕ) (ds : Bytes) → all_digits ds ≡ true → decimal_value n ds < suc n * 10 ^ length ds
unfolding decimal_value all_digits is_digit
decimal_value-lt n [] h = omega arith
decimal_value-lt n (d ∷ ds) h =
    let (low, (high, others)) = digit_range d ds h in
    let rest = decimal_value-lt (n * 10 + (d - b'0')) ds others in
    let more = mul-le-mul_right (10 ^ length ds) (room n d high) in
    let regroup : suc n * 10 * 10 ^ length ds ≡ suc n * (10 * 10 ^ length ds) =
      mul_assoc (suc n) 10 (10 ^ length ds) in
    let grown : 10 * 10 ^ length ds ≡ 10 ^ suc (length ds) = omega arith in
    let scaled : suc n * (10 * 10 ^ length ds) ≡ suc n * 10 ^ suc (length ds) =
      ap (λ x. suc n * x) grown in
    omega arith
  where
    digit_range :
        (d : ℕ) (ds : Bytes)
        → all_digits (d ∷ ds) ≡ true
        → (48 ≤ d) × ((d ≤ 57) × (all_digits ds ≡ true))
    digit_range d ds h = ground arith

    room : (n d : ℕ) → d ≤ 57 → suc (n * 10 + (d - b'0')) ≤ suc n * 10
    room n d high = omega arith

-- Eighteen digits are less than any bound of an int64.
short-fits : (ds : Bytes) → all_digits ds ≡ true → length ds ≤ 18 → decimal_value 0 ds < 2 ^ 63
short-fits ds h few =
    let bound = decimal_value-lt 0 ds h in
    let power = pow-le-pow_right {n = 10} (omega arith) few in
    let one : 1 * 10 ^ length ds ≡ 10 ^ length ds = omega arith in omega arith

take_snoc : (xs : Bytes) (y : ℕ) → take (length xs) (xs ++ y ∷ []) ≡ xs
take_snoc [] y = refl
take_snoc (x ∷ xs) y = ap (λ t. x ∷ t) (take_snoc xs y)

get_or_snoc : (xs : Bytes) (y d : ℕ) → get_or (xs ++ y ∷ []) (length xs) d ≡ y
get_or_snoc [] y d = refl
get_or_snoc (x ∷ xs) y d = get_or_snoc xs y d

-- The tests after the loop, on a block of an integer.
is_number-int :
    (pf : Bytes → Bool) (c : ℕ) (ds rest : Bytes)
    → is_number pf c (int_of (c ∷ ds ++ b'i' ∷ []) rest) ≡ (
        if suc (length ds) - one_if (c == b'-') == 0
        then false
        else if leb 19 (suc (length ds)) || leb 20 (suc (length ds))
        then parses_int (c ∷ ds)
        else true)
unfolding is_number
is_number-int pf c ds rest =
    let size : length (c ∷ ds ++ b'i' ∷ []) - 1 ≡ suc (length ds) =
      omega (arith, length-append ds (b'i' ∷ [])) in
    let whole : suc (length ds) - 0 ≡ suc (length ds) = omega arith in
    rw (size, take_snoc (c ∷ ds) b'i', get_or_snoc (c ∷ ds) b'i' 0, take_snoc ds b'i', whole) refl

-- ParseInt is called for at least nineteen bytes only, and accepts all that are shorter.
abbrev shortened : ℕ → Bytes → Bool
shortened c ds =
    if suc (length ds) - one_if (c == b'-') == 0
    then false
    else if leb 19 (suc (length ds)) || leb 20 (suc (length ds))
    then parses_int (c ∷ ds)
    else true

shortened_minus : (ds : Bytes) → all_digits ds ≡ true → shortened b'-' ds ≡ parses_int (b'-' ∷ ds)
unfolding parses_int decimal_digits
shortened_minus [] h = refl
shortened_minus (d ∷ ds) h = ground (arith, short-fits (d ∷ ds) h)

shortened_digit :
    (c : ℕ) (ds : Bytes)
    → (c == b'-') ≡ false
    → (c == b'+') ≡ false
    → all_digits (c ∷ ds) ≡ true
    → shortened c ds ≡ parses_int (c ∷ ds)
unfolding parses_int decimal_digits
shortened_digit c ds no_minus no_plus h =
    rw (no_minus, no_plus) ground (arith, short-fits (c ∷ ds) h)

nonempty : (ds rest : Bytes) → (length (ds ++ b'i' ∷ rest) == 0) ≡ false
nonempty [] rest = ground arith
nonempty (d ∷ ds) rest = ground arith

number_minus :
    (pf : Bytes → Bool) (prev : ℕ) (ds rest : Bytes)
    → all_digits ds ≡ true
    → stops rest ≡ true
    → (scan_number pf prev b'-' (ds ++ b'i' ∷ rest)).ok ≡ parses_int (b'-' ∷ ds)
unfolding scan_number
number_minus pf prev ds rest h e =
    rw (nonempty ds rest, scan_loop-digits b'-' ds rest h e)
      (is_number-int pf b'-' ds rest ∙ shortened_minus ds h)

number_digit :
    (pf : Bytes → Bool) (prev c : ℕ) (ds rest : Bytes)
    → is_digit c ≡ true
    → all_digits ds ≡ true
    → stops rest ≡ true
    → (scan_number pf prev c (ds ++ b'i' ∷ rest)).ok ≡ parses_int (c ∷ ds)
unfolding scan_number all_digits is_digit
number_digit pf prev c ds rest digit h e =
    let no_minus : (c == b'-') ≡ false = ground arith in
    let no_plus : (c == b'+') ≡ false = ground arith in
    let loop =
      scan_loop-digit true prev c (ds ++ b'i' ∷ rest) digit
      ∙ ap (past_byte c) (scan_loop-digits c ds rest h e) in
    rw (no_minus, loop)
      (is_number-int pf c ds rest ∙ shortened_digit c ds no_minus no_plus (rw digit h))

-- An integer of a field, an optional minus sign and digits before an `i`, at a comma, a space or the
-- end: scanNumber accepts it exactly when ParseInt would accept it as an int64, although it calls
-- ParseInt for long texts only.
pub scan_number-parses_int :
    (pf : Bytes → Bool) (prev c : ℕ) (ds rest : Bytes)
    → (if c == b'-' then true else is_digit c) ≡ true
    → all_digits ds ≡ true
    → stops rest ≡ true
    → (scan_number pf prev c (ds ++ b'i' ∷ rest)).ok ≡ parses_int (c ∷ ds)
scan_number-parses_int pf prev c ds rest first h e = elim (Bool-cases (c == b'-')) [
  | inl minus ↦
      let is_minus : c ≡ b'-' = ground arith in
      subst (λ x. (scan_number pf prev x (ds ++ b'i' ∷ rest)).ok ≡ parses_int (x ∷ ds))
        (sym is_minus) (number_minus pf prev ds rest h e)
  | inr no_minus ↦ number_digit pf prev c ds rest (rw no_minus at first) h e
]
