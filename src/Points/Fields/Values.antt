-- ===== src/Points/Fields/Values.antt =====
-- The values of fields in misc/points.go: what `MarshalBinary` writes is read back.
use vgo.Prelude.{
  ℕ, suc, ◌-◌, ◌%◌, ◌/◌, ◌^◌, ◌<◌, Bytes, equal, Bool, true, false, ◌==◌, ◌≡◌, refl, arith, [], ◌∷◌,
  ◌++◌, Option, some, length, length-append, get_or,
}
use vgo.Prelude.Decimal.{itoa}
use vgo.Prelude.Int.{ℤ, pos, negsuc}
use vgo.Prelude.Outcome.{returned}
use vgo.Points.Escape.{escape_string_field}
use vgo.Points.Escape.StringField.{unescape_string_field-escape}
use vgo.Points.Number.{all_digits, is_digit}
use vgo.Points.TagMap.Escaped.{NoSlash}
use vgo.Points.Tags.Rounds.{but_last-snoc}
use vgo.Points.Fields.{
  Field, integer, float, boolean, text, nothing, format_int, format_bool, quoted_text, parse_bool,
  scan_field_value, starts_number, value_bytes, parse_number, value_of,
}
use vgo.Points.Fields.Integers.{Fits, Digits, itoa-Digits, parse_int-format_int}
use vgo.Points.Fields.ValueEnds.{IsBare, IsEnd, scan-IsBare, scan-quoted_text}

-- A text that is read back as this value.
abbrev pub Reads : (Bytes → Option ℕ) → Field → Bytes → Type 0
Reads parse_float v [] = ⊥
Reads parse_float v (c ∷ s) = value_of parse_float c s ≡ returned v

abbrev pub StartsNumber : Bytes → Type 0
StartsNumber [] = ⊥
StartsNumber (c ∷ s) = starts_number c ≡ true

-- The bits of a finite float64.
abbrev pub IsFinite : ℕ → Type 0
IsFinite x = (x < 2 ^ 64) × ((x / 2 ^ 52) % 2 ^ 11 < 2047)

-- What FormatFloat with the bit size 64 writes for a finite number: a text that begins like a number, with no quote,
-- comma or backslash, and no i at its end, which ParseFloat reads back.
pub record FloatLaws (format_float : (bits : ℕ) → ℕ → Bytes) (parse_float : Bytes → Option ℕ)
    : Type 0 where
  pub starts : (x : ℕ) → IsFinite x → StartsNumber (format_float 64 x)
  pub bare : (x : ℕ) → IsFinite x → IsBare (format_float 64 x)
  pub no_suffix :
      (x : ℕ)
      → IsFinite x
      → (get_or (format_float 64 x) (length (format_float 64 x) - 1) 0 == b'i') ≡ false
  pub reads : (x : ℕ) → IsFinite x → parse_float (format_float 64 x) ≡ some x

pub digits-IsBare : (s : Bytes) → all_digits s ≡ true → IsBare s
unfolding all_digits is_digit
digits-IsBare [] h = tt
digits-IsBare (c ∷ s) h = (ground arith, digits-IsBare s (ground arith))

append-IsBare : (s t : Bytes) → IsBare s → IsBare t → IsBare (s ++ t)
append-IsBare [] t h g = g
append-IsBare (c ∷ s) t h g = (h.0, append-IsBare s t h.1 g)

pub Digits-StartsNumber : (n : ℕ) (s t : Bytes) → Digits n s → StartsNumber (s ++ t)
Digits-StartsNumber n [] t d = absurd (let e = d.not_empty in omega arith)
Digits-StartsNumber n (c ∷ s) t d =
    let all : all_digits (c ∷ s) ≡ true = d.all in
    unfold all_digits is_digit starts_number in ground arith

get_or-snoc : (s : Bytes) (c : ℕ) → get_or (s ++ c ∷ []) (length s) 0 ≡ c
get_or-snoc [] c = refl
get_or-snoc (d ∷ s) c = get_or-snoc s c

last-snoc : (s : Bytes) (c : ℕ) → get_or (s ++ c ∷ []) (length (s ++ c ∷ []) - 1) 0 ≡ c
last-snoc s c =
    let last : length (s ++ c ∷ []) - 1 ≡ length s = omega (arith, length-append s (c ∷ [])) in
    rw last (get_or-snoc s c)

integer-IsBare : (n : ℤ) → IsBare (format_int n)
unfolding format_int
integer-IsBare (pos n) = digits-IsBare (itoa n) (itoa-Digits n).all
integer-IsBare (negsuc n) = (refl, digits-IsBare (itoa (suc n)) (itoa-Digits (suc n)).all)

integer-StartsNumber : (n : ℤ) → StartsNumber (format_int n ++ b'i' ∷ [])
unfolding format_int
integer-StartsNumber (pos n) = Digits-StartsNumber n (itoa n) (b'i' ∷ []) (itoa-Digits n)
integer-StartsNumber (negsuc n) = unfold starts_number in refl

module _ (parse_float : Bytes → Option ℕ) where
  number-Reads :
      (s : Bytes) (v : Field)
      → StartsNumber s
      → parse_number parse_float s ≡ some v
      → Reads parse_float v s
  unfolding value_of
  number-Reads [] v h e = absurd h
  number-Reads (c ∷ s) v h e =
      let no_quote : (c == b'"') ≡ false = unfold starts_number in ground arith in
      rw (no_quote, h, e) refl

  integer-Reads : (n : ℤ) → Fits n → Reads parse_float (integer n) (format_int n ++ b'i' ∷ [])
  integer-Reads n h = number-Reads _ (integer n) (integer-StartsNumber n) (
      unfold parse_number in
      rw
        (last-snoc (format_int n) b'i', but_last-snoc (format_int n) b'i', parse_int-format_int n h)
        refl)

  text-Reads : (s : Bytes) → Reads parse_float (text s) (quoted_text s)
  unfolding value_of
  text-Reads s =
      let body = escape_string_field s in
      let not_empty : (length (body ++ b'"' ∷ []) == 0) ≡ false =
        ground (arith, length-append body (b'"' ∷ [])) in
      rw (not_empty, but_last-snoc body b'"', unescape_string_field-escape s) refl

-- An int64, a finite float64, a Boolean, or a text without backslashes. A float32 is none: it is read
-- back as the float64 nearest to its text.
abbrev pub Storable : Field → Type 0
Storable (integer n) = Fits n
Storable (float x) = IsFinite x
Storable (boolean b) = Unit
Storable (text s) = NoSlash s
Storable _ = ⊥

-- A value is scanned to its end, and its text is read back.
pub record ReadBack (format_float : (bits : ℕ) → ℕ → Bytes) (parse_float : Bytes → Option ℕ)
    (v : Field) (t : Bytes) : Type 0 where
  pub scanned :
      scan_field_value false (value_bytes format_float v ++ t)
      ≡ record { block = value_bytes format_float v; rest = t; ok = true }
  pub reads : Reads parse_float v (value_bytes format_float v)

float-Reads :
    (format_float : (bits : ℕ) → ℕ → Bytes) (parse_float : Bytes → Option ℕ) (x : ℕ)
    → FloatLaws format_float parse_float
    → IsFinite x
    → Reads parse_float (float x) (format_float 64 x)
float-Reads format_float parse_float x laws h =
    number-Reads parse_float (format_float 64 x) (float x) (laws.starts x h)
      (unfold parse_number in rw (laws.no_suffix x h, laws.reads x h) refl)

bool-Reads :
    (parse_float : Bytes → Option ℕ) (b : Bool) → Reads parse_float (boolean b) (format_bool b)
unfolding value_of starts_number parse_bool equal
bool-Reads parse_float true = refl
bool-Reads parse_float false = refl

bool-IsBare : (b : Bool) → IsBare (format_bool b)
bool-IsBare true = (refl, (refl, (refl, (refl, tt))))
bool-IsBare false = (refl, (refl, (refl, (refl, (refl, tt)))))

-- A value that MarshalBinary has written, with the end or a comma behind it, is scanned to that
-- place, and it is read back as it was.
pub value_bytes-ReadBack :
    (format_float : (bits : ℕ) → ℕ → Bytes) (parse_float : Bytes → Option ℕ) (v : Field) (t : Bytes)
    → FloatLaws format_float parse_float
    → Storable v
    → IsEnd t
    → ReadBack format_float parse_float v t
unfolding value_bytes
value_bytes-ReadBack format_float parse_float (integer n) t laws h e = record {
  scanned =
      scan-IsBare (format_int n ++ b'i' ∷ []) t
        (append-IsBare (format_int n) (b'i' ∷ []) (integer-IsBare n) (refl, tt)) e;
  reads = integer-Reads parse_float n h;
}
value_bytes-ReadBack format_float parse_float (float x) t laws h e = record {
  scanned = scan-IsBare (format_float 64 x) t (laws.bare x h) e;
  reads = float-Reads format_float parse_float x laws h;
}
value_bytes-ReadBack format_float parse_float (boolean b) t laws h e = record {
  scanned = scan-IsBare (format_bool b) t (bool-IsBare b) e;
  reads = bool-Reads parse_float b;
}
value_bytes-ReadBack format_float parse_float (text s) t laws h e = record {
  scanned = scan-quoted_text s t h e;
  reads = text-Reads parse_float s;
}
value_bytes-ReadBack format_float parse_float (Field.raw s) t laws h e = absurd h
value_bytes-ReadBack format_float parse_float (Field.other s) t laws h e = absurd h
value_bytes-ReadBack format_float parse_float (Field.float32 x) t laws h e = absurd h
value_bytes-ReadBack format_float parse_float nothing t laws h e = absurd h
