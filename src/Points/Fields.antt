-- ===== src/Points/Fields.antt =====
-- misc/points.go: the fields of a point, `Fields.MarshalBinary` and `newFieldsFromBinary`. The
-- escape of influxdata, `FormatFloat` (of a bit size and a number) and `ParseFloat` are parameters; a
-- float64 is its bit pattern.
pub mod Ends
pub mod Integers
pub mod Names
pub mod ValueEnds
pub mod Values
pub mod RoundTrip
use vgo.Prelude.{
  ℕ, zero, suc, ◌-◌, Bytes, codes, equal, Bool, true, false, not, ◌&&◌, ◌||◌, ◌==◌, ltb, leb, List,
  [], ◌∷◌, ◌++◌, map, Option, none, some, length, take, get_or, contains, if◌then◌else◌,
}
use vgo.Prelude.Decimal.{itoa}
use vgo.Prelude.Int.{ℤ, pos, negsuc}
use vgo.Prelude.Dict.{Dict, lookup, insert}
use vgo.Prelude.Outcome.{Outcome, returned, panicked, out_of_fuel, then_call}
use vgo.Points.Escape.{escape_string_field, unescape_string_field}
use vgo.Points.Scan.{Scanned, stop_at, past}
use vgo.Points.Key.{scan_to}
use vgo.Points.Parser.{parse_int}
use vgo.Points.TagMap.{sort_strings, keys}

-- A field: `integer` is any Go integer but uint64, after its conversion to int64, `float` a float64,
-- `float32` a float32 by the bits of its value as a float64, and `other` a value of another type by
-- its `%v` text.
pub data Field : Type 0 where
  integer : ℤ → Field
  float float32 : ℕ → Field
  boolean : Bool → Field
  text raw other : Bytes → Field
  nothing : Field

-- `strconv.FormatInt(n, 10)`.
unfoldable pub format_int : ℤ → Bytes
unfolding itoa
format_int (pos n) = itoa n
format_int (negsuc n) = b'-' ∷ itoa (suc n)

abbrev pub format_bool : Bool → Bytes
format_bool true = codes "true"
format_bool false = codes "false"

abbrev pub quoted_text : Bytes → Bytes
quoted_text s = b'"' ∷ (escape_string_field s ++ b'"' ∷ [])

-- `strconv.ParseBool`.
abbrev pub true_words : List Bytes
true_words = codes "1" ∷ codes "t" ∷ codes "T" ∷ codes "TRUE" ∷ codes "true" ∷ codes "True" ∷ []

abbrev pub false_words : List Bytes
false_words = codes "0" ∷ codes "f" ∷ codes "F" ∷ codes "FALSE" ∷ codes "false" ∷ codes "False" ∷ []

unfoldable pub parse_bool : Bytes → Option Bool
unfolding contains
parse_bool s =
    if contains true_words s then some true else if contains false_words s then some false else none

-- `scanFieldValue`.
unfoldable pub scan_field_value : (quoted : Bool) → Bytes → Scanned
scan_field_value quoted [] = stop_at [] true
scan_field_value quoted (c ∷ []) =
    if c == b',' && not quoted then stop_at (c ∷ []) true else past c (stop_at [] true)
scan_field_value quoted (c ∷ d ∷ s) =
    let pair = past c (past d (scan_field_value quoted s)) in
    let toggled = past c (scan_field_value (not quoted) (d ∷ s)) in
    let later = past c (scan_field_value quoted (d ∷ s)) in
    if c == b'\\' && d == b'"'
    then pair
    else if c == b'"'
    then toggled
    else if c == b',' && not quoted
    then stop_at (c ∷ d ∷ s) true
    else later

-- The first byte of a number, NaN or Inf.
unfoldable pub starts_number : ℕ → Bool
starts_number c =
    leb b'0' c && leb c b'9'
    || c == b'-'
    || c == b'.'
    || c == b'N'
    || c == b'n'
    || c == b'I'
    || c == b'i'

abbrev pub field_or_nothing : Option Field → Field
field_or_nothing none = nothing
field_or_nothing (some v) = v

module _ (format_float : (bits : ℕ) → ℕ → Bytes) where
  -- The switch of `MarshalBinary`.
  unfoldable pub value_bytes : Field → Bytes
  unfolding format_int
  value_bytes (integer n) = format_int n ++ b'i' ∷ []
  value_bytes (float32 x) = format_float 32 x
  value_bytes (float x) = format_float 64 x
  value_bytes (boolean b) = format_bool b
  value_bytes (raw s) = s
  value_bytes (text s) = quoted_text s
  value_bytes nothing = []
  value_bytes (other s) = quoted_text s

module _ (format_float : (bits : ℕ) → ℕ → Bytes) (escape : Bytes → Bytes) where
  -- The loop over the sorted keys.
  unfoldable pub fields_bytes : Dict Field → List Bytes → Bytes
  unfolding value_bytes
  fields_bytes fields [] = []
  fields_bytes fields (k ∷ ks) =
      escape k
      ++ b'='
        ∷ (value_bytes format_float (field_or_nothing (lookup k fields))
            ++ b',' ∷ fields_bytes fields ks)

  unfoldable pub marshal_fields : Dict Field → Bytes
  unfolding fields_bytes sort_strings
  marshal_fields fields =
      let b = fields_bytes fields (sort_strings (keys fields)) in take (length b - 1) b

-- One byte further, or at the end.
abbrev pub next_byte :
    (ℕ → Bytes → Dict Field → Outcome (Dict Field)) → Bytes → Dict Field → Outcome (Dict Field)
next_byte loop [] fields = returned fields
next_byte loop (d ∷ rest) fields = loop d rest fields

abbrev pub or_panic : Option Field → Outcome Field
or_panic none = panicked
or_panic (some v) = returned v

module _ (parse_float : Bytes → Option ℕ) where
  -- `parseNumber`, on a text that is not empty; the test in its loop for another byte never holds,
  -- so that it parses a float on every path without the suffix.
  unfoldable pub parse_number : Bytes → Option Field
  unfolding parse_int
  parse_number s =
      if get_or s (length s - 1) 0 == b'i'
      then elim (parse_int (take (length s - 1) s)) [ none ↦ none | some n ↦ some (integer n) ]
      else elim (parse_float s) [ none ↦ none | some x ↦ some (float x) ]

  -- The value of a text that is not empty.
  unfoldable pub value_of : ℕ → Bytes → Outcome Field
  unfolding parse_number parse_bool starts_number
  value_of c s =
      let string =
        if length s == 0
        then panicked
        else returned (text (unescape_string_field (take (length s - 1) s))) in
      let number = or_panic (parse_number (c ∷ s)) in
      let bool = or_panic (elim (parse_bool (c ∷ s)) [ none ↦ none | some b ↦ some (boolean b) ]) in
      if c == b'"' then string else if starts_number c then number else bool

  -- A field with its value: the loop goes on, at the end of an empty value of a named field, and
  -- one byte further otherwise.
  abbrev pub add_field :
      (ℕ → Bytes → Dict Field → Outcome (Dict Field))
      → (name value rest : Bytes) → Dict Field
      → Outcome (Dict Field)
  add_field loop [] value rest fields = next_byte loop rest fields
  add_field loop (n ∷ name) [] rest fields = loop b'=' rest (insert (n ∷ name) nothing fields)
  add_field loop (n ∷ name) (c ∷ value) rest fields =
      then_call (value_of c value) λ v. next_byte loop rest (insert (n ∷ name) v fields)

  -- A round, behind the scan of the name. Without an equals sign the value is sliced one past the
  -- end, where there may be room in the buffer.
  abbrev pub add_name :
      (ℕ → Bytes → Dict Field → Outcome (Dict Field))
      → (room : Bool) → (name rest : Bytes) → Dict Field
      → Outcome (Dict Field)
  add_name loop room [] [] fields = if room then returned fields else panicked
  add_name loop room (n ∷ name) [] fields =
      if room then returned (insert (n ∷ name) nothing fields) else panicked
  add_name loop room name (e ∷ rest) fields =
      let value = scan_field_value false rest in add_field loop name value.block value.rest fields

module _ (parse_float : Bytes → Option ℕ) (unescape : Bytes → Bytes) where
  -- The loop of `newFieldsFromBinary`, with the byte before the position.
  unfoldable pub from_loop :
      (fuel : ℕ) (room : Bool) → Option ℕ → Bytes → Dict Field → Outcome (Dict Field)
  unfolding scan_field_value value_of
  from_loop zero room prev s fields = out_of_fuel
  from_loop (suc fuel) room prev [] fields = returned fields
  from_loop (suc fuel) room prev (c ∷ s) fields =
      let name = scan_to b'=' prev (c ∷ s) in
      add_name parse_float (λ d. from_loop fuel room (some d)) room (unescape name.block) name.rest
        fields

  unfoldable pub new_fields_from_binary : (room : Bool) → Bytes → Outcome (Dict Field)
  unfolding from_loop
  new_fields_from_binary room buf = from_loop (suc (length buf)) room none buf []
