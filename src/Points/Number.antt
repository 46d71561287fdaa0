-- ===== src/Points/Number.antt =====
-- misc/points.go: `scanNumber`, which checks the number of a field. `strconv.ParseFloat` is a
-- parameter, which says whether it accepts a text.
pub mod Integer
use vgo.Prelude.{
  ℕ, suc, ◌+◌, ◌-◌, ◌*◌, ◌^◌, Bytes, Bool, true, false, not, ◌&&◌, ◌||◌, ◌==◌, ltb, leb, List, [],
  ◌∷◌, length, take, get_or, if◌then◌else◌,
}

unfoldable pub is_digit : ℕ → Bool
is_digit c = leb b'0' c && leb c b'9'

unfoldable pub is_numeric : ℕ → Bool
unfolding is_digit
is_numeric b = is_digit b || b == b'.'

-- `strconv.ParseInt(s, 10, 64)`: whether it returns no error.
unfoldable pub all_digits : Bytes → Bool
all_digits [] = true
all_digits (c ∷ s) = is_digit c && all_digits s

unfoldable pub decimal_value : ℕ → Bytes → ℕ
decimal_value n [] = n
decimal_value n (c ∷ s) = decimal_value (n * 10 + (c - b'0')) s

unfoldable pub decimal_digits : Bytes → Bool
unfolding all_digits
decimal_digits [] = false
decimal_digits (c ∷ s) = all_digits (c ∷ s)

unfoldable pub parses_int : Bytes → Bool
unfolding decimal_digits decimal_value
parses_int [] = false
parses_int (c ∷ s) =
    if c == b'-'
    then decimal_digits s && leb (decimal_value 0 s) (2 ^ 63)
    else if c == b'+'
    then decimal_digits s && ltb (decimal_value 0 s) (2 ^ 63)
    else decimal_digits (c ∷ s) && ltb (decimal_value 0 (c ∷ s)) (2 ^ 63)

-- What the loop has seen, and its variables: the bytes before the end position, what is left
-- there, whether there was no error, and the three flags.
pub record Number : Type 0 where
  pub block : Bytes
  pub rest : Bytes
  pub ok : Bool
  pub is_int : Bool
  pub is_decimal : Bool
  pub is_scientific : Bool

abbrev pub past_byte : ℕ → Number → Number
past_byte c n = record n { block = c ∷ n.block }

-- The loop, with whether the position is the start, the byte before it, and the flags.
unfoldable pub scan_loop :
    (at_start : Bool) (prev : ℕ) (int decimal scientific : Bool) → Bytes → Number
unfolding is_numeric
scan_loop at_start prev int decimal scientific [] = record {
  block = [];
  rest = [];
  ok = true;
  is_int = int;
  is_decimal = decimal;
  is_scientific = scientific;
}
scan_loop at_start prev int decimal scientific (c ∷ s) =
    let starts_suffix = c == b'i' && not at_start && not int in
    let is_exponent = not at_start && (c == b'e' || c == b'E') in
    let later =
      scan_loop false c (int || starts_suffix) (decimal || c == b'.') (scientific || is_exponent)
        s in
    let here : Bool → Number = λ ok. record {
      block = [];
      rest = c ∷ s;
      ok = ok;
      is_int = int;
      is_decimal = decimal;
      is_scientific = scientific;
    } in
    if c == b',' || c == b' '
    then here true
    else if starts_suffix
    then past_byte c later
    else if c == b'.' && decimal
    then here false
    else if is_exponent
    then past_byte c later
    else if (c == b'+' || c == b'-') && (prev == b'e' || prev == b'E')
    then past_byte c later
    else if leb 2 (length s) && (c == b'N' || c == b'n')
    then here false
    else if not (is_numeric c)
    then here false
    else past_byte c later

abbrev pub one_if : Bool → ℕ
one_if true = 1
one_if false = 0

-- The digits that `scanNumber` counts.
abbrev pub numeric_digits : ℕ → Number → ℕ
numeric_digits first n =
    length n.block - one_if n.is_int - one_if n.is_decimal - one_if (first == b'-')

module _ (parses_float : Bytes → Bool) where
  -- The tests after the loop, with the byte at the start.
  unfoldable pub is_number : ℕ → Number → Bool
  is_number first n =
      let text = take (length n.block - 1) n.block in
      if not n.ok
      then false
      else if n.is_int && (n.is_decimal || n.is_scientific)
      then false
      else if numeric_digits first n == 0
      then false
      else if n.is_int
      then if not (get_or n.block (length n.block - 1) 0 == b'i')
        then false
        else if leb 19 (length text) || leb 20 (length text)
        then parses_int text
        else true
      else if n.is_scientific || leb 25 (length n.block) || leb 27 (length n.block)
      then parses_float n.block
      else true

  -- `scanNumber` at a position with this byte, behind that one.
  unfoldable pub scan_number : (prev : ℕ) → ℕ → Bytes → Number
  scan_number prev c s =
      let negative = scan_loop false b'-' false false false s in
      let loop =
        if c == b'-'
        then record negative { block = c ∷ negative.block }
        else scan_loop true prev false false false (c ∷ s) in
      record loop { ok = not (c == b'-' && length s == 0) && is_number c loop }
