-- ===== src/Points/Fields/Integers.antt =====
-- The integers of misc/points.go: `ParseInt` reads back what `FormatInt` wrote.
use vgo.Prelude.{
  ℕ, zero, suc, ◌+◌, ◌/◌, ◌%◌, ◌^◌, ◌<◌, Bytes, true, false, ◌==◌, ltb, leb, ◌≡◌, refl, ap, ◌∙◌,
  arith, [], ◌∷◌, some, length, both-if, Bool-cases, inl, inr,
}
use vgo.Prelude.Decimal.{itoa, digits_loop}
use vgo.Prelude.Int.{ℤ, pos, negsuc}
use vgo.Points.Number.{decimal_value, decimal_digits, all_digits, is_digit, parses_int}
use vgo.Points.Parser.{parse_int}
use vgo.Points.Fields.{format_int}

decimal_value-digits_loop :
    (fuel n : ℕ) (out : Bytes)
    → n < fuel
    → decimal_value 0 (digits_loop fuel n out) ≡ decimal_value n out
unfolding digits_loop
decimal_value-digits_loop zero n out h = absurd (omega arith)
decimal_value-digits_loop (suc fuel) n out h = elim (Bool-cases (ltb n 10)) [
  | inl small ↦ rw small (unfold decimal_value in ap (λ m. decimal_value m out) (ground arith))
  | inr large ↦
      let later = decimal_value-digits_loop fuel (n / 10) ((b'0' + n % 10) ∷ out) (ground arith) in
      rw large (later ∙ (unfold decimal_value in ap (λ m. decimal_value m out) (omega arith)))
]

all_digits-digits_loop :
    (fuel n : ℕ) (out : Bytes) → all_digits out ≡ true → all_digits (digits_loop fuel n out) ≡ true
unfolding digits_loop
all_digits-digits_loop zero n out h = h
all_digits-digits_loop (suc fuel) n out h =
    let digit : all_digits ((b'0' + n % 10) ∷ out) ≡ true =
      unfold all_digits is_digit in ground arith in
    both-if (λ s. all_digits s ≡ true) (ltb n 10) digit
      (all_digits-digits_loop fuel (n / 10) _ digit)

length-digits_loop :
    (fuel n : ℕ) (out : Bytes) → 0 < length out → 0 < length (digits_loop fuel n out)
unfolding digits_loop
length-digits_loop zero n out h = h
length-digits_loop (suc fuel) n out h =
    let digit : 0 < length ((b'0' + n % 10) ∷ out) = omega arith in
    both-if (λ (s : Bytes). 0 < length s) (ltb n 10) digit
      (length-digits_loop fuel (n / 10) ((b'0' + n % 10) ∷ out) digit)

length-first : (fuel n : ℕ) → 0 < length (digits_loop (suc fuel) n [])
unfolding digits_loop
length-first fuel n =
    let digit : 0 < length ((b'0' + n % 10) ∷ []) = omega arith in
    both-if (λ (s : Bytes). 0 < length s) (ltb n 10) digit
      (length-digits_loop fuel (n / 10) ((b'0' + n % 10) ∷ []) digit)

-- Digits, at least one.
pub record Digits (n : ℕ) (s : Bytes) : Type 0 where
  pub all : all_digits s ≡ true
  pub not_empty : 0 < length s
  pub value : decimal_value 0 s ≡ n

pub itoa-Digits : (n : ℕ) → Digits n (itoa n)
unfolding itoa
itoa-Digits n = record {
  all = all_digits-digits_loop (suc n) n [] (unfold all_digits in refl);
  not_empty = length-first n n;
  value = decimal_value-digits_loop (suc n) n [] (omega arith) ∙ (unfold decimal_value in refl);
}

parse_int-Digits : (n : ℕ) (s : Bytes) → Digits n s → n < 2 ^ 63 → parse_int s ≡ some (pos n)
unfolding parse_int parses_int decimal_digits
parse_int-Digits n [] d h = absurd (let e = d.not_empty in omega arith)
parse_int-Digits n (c ∷ s) d h =
    let digit : is_digit c ≡ true = ground arith in
    let no_minus : (c == b'-') ≡ false = unfold is_digit in ground arith in
    let no_plus : (c == b'+') ≡ false = unfold is_digit in ground arith in
    let small : ltb n 9223372036854775808 ≡ true = ground arith in
    rw (no_minus, no_plus, d.all, d.value, small) refl

parse_int_minus :
    (n : ℕ) (s : Bytes) → Digits (suc n) s → n < 2 ^ 63 → parse_int (b'-' ∷ s) ≡ some (negsuc n)
unfolding parse_int parses_int decimal_digits
parse_int_minus n [] d h = absurd (let e = d.not_empty in omega arith)
parse_int_minus n (c ∷ s) d h =
    let small : leb (suc n) 9223372036854775808 ≡ true = ground arith in
    rw (d.all, d.value, small) (ground arith)

-- An int64.
abbrev pub Fits : ℤ → Type 0
Fits (pos n) = n < 2 ^ 63
Fits (negsuc n) = n < 2 ^ 63

pub parse_int-format_int : (n : ℤ) → Fits n → parse_int (format_int n) ≡ some n
unfolding format_int
parse_int-format_int (pos n) h = parse_int-Digits n (itoa n) (itoa-Digits n) h
parse_int-format_int (negsuc n) h = parse_int_minus n (itoa (suc n)) (itoa-Digits (suc n)) h
