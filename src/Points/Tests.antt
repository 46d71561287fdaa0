-- ===== src/Points/Tests.antt =====
-- Runs of the line protocol's parts on concrete texts, and the theorems at them.
mod Lines
mod TagMap
mod Fields
use vgo.Prelude.{
  ℕ, ◌≡◌, refl, ap, sym, ◌++◌, Bytes, codes, contains, equal, Bool, true, false, [], ◌∷◌, Option,
  none, some, arith,
}
use vgo.Prelude.Int.{pos, negsuc}
use vgo.Points.Escape.{
  escape_string_field, unescape_string_field, escape_tag, unescape_tag, escape_measurement,
  unescape_measurement,
}
use vgo.Points.Escape.StringField.{unescape_string_field-escape}
use vgo.Points.Escape.Tag.{unescape_tag-escape_tag, escape_measurement_idem}
use vgo.Points.Number.{
  scan_number, scan_loop, is_number, is_numeric, is_digit, all_digits, decimal_digits,
  decimal_value, parses_int,
}
use vgo.Points.Number.Integer.{scan_number-parses_int}
use vgo.Points.Scan.{scan_boolean, scan_time, skip_whitespace, scan_digits, scan_word, is_boolean}
use vgo.Points.Scan.Accepts.{booleans, word, integer, scan_boolean-accepts, scan_time-accepts}
use vgo.Points.Time.{get_precision_multiplier, safe_calc_time}
use vgo.Points.Time.Range.{in_range, safe_calc_time-eq}
use vgo.Points.Binary.{Point, TimeCodec, put_uint32, marshal_binary, unmarshal_binary}
use vgo.Points.Binary.RoundTrip.{TimeLaws, unmarshal-marshal}

escape_tag_run : escape_tag (codes "a b,c=d\\") ≡ codes "a\\ b\\,c\\=d\\"
unfolding escape_tag
escape_tag_run = refl

unescape_tag-escape_tag_example : unescape_tag (escape_tag (codes "a b,c=d\\")) ≡ codes "a b,c=d\\"
unescape_tag-escape_tag_example = unescape_tag-escape_tag (codes "a b,c=d\\")

-- 2017 in seconds fits; the greatest int64 does not.
safe_calc_time_run :
    (safe_calc_time (pos 1483228800) (codes "s") ≡ some (pos 1483228800000000000))
    × (safe_calc_time (pos 9223372036854775807) (codes "u") ≡ none)
    × (safe_calc_time (negsuc 9223372036854775807) (codes "n") ≡ some (negsuc 9223372036854775807))
unfolding safe_calc_time get_precision_multiplier
safe_calc_time_run = (refl, refl, refl)

safe_calc_time-eq_example :
    safe_calc_time (negsuc 9223372036854775807) (codes "h")
    ≡ in_range (negsuc 9223372036854775807) (get_precision_multiplier (codes "h"))
safe_calc_time-eq_example = safe_calc_time-eq (negsuc 9223372036854775807) (codes "h") (omega arith)

-- Times as numbers, written as one byte.
abbrev first : Bytes → Option ℕ
first [] = none
first (t ∷ _) = some t

abbrev byte_times : TimeCodec
byte_times = record { Time = ℕ; encode = λ t. some (t ∷ []); decode = first }

abbrev first_of : Option Bytes → Option ℕ
first_of none = none
first_of (some b) = first b

byte_times-TimeLaws : TimeLaws byte_times
byte_times-TimeLaws = record { decode-encode = λ t e. ap first_of (sym e) }

abbrev point : Point ℕ
point = record { time = 9; key = codes "cpu,host=a"; fields = codes "v=1" }

abbrev marshalled : Bytes
marshalled = 0 ∷ 0 ∷ 0 ∷ 10 ∷ (codes "cpu,host=a" ++ (0 ∷ 0 ∷ 0 ∷ 3 ∷ (codes "v=1" ++ (9 ∷ []))))

marshal_binary_run : marshal_binary byte_times point ≡ some marshalled
unfolding marshal_binary put_uint32
marshal_binary_run = refl

unmarshal-marshal_example : unmarshal_binary byte_times 0 marshalled ≡ some point
unmarshal-marshal_example =
    unmarshal-marshal byte_times 0 point marshalled byte_times-TimeLaws (omega arith) (omega arith)
      marshal_binary_run

-- "True" before a comma, and "Trus".
scan_boolean-accepts_example :
    ((scan_boolean b'T' (codes "rue,b=1")).ok ≡ contains booleans (word (codes "True,b=1")))
    × ((scan_boolean b'T' (codes "rue,b=1")).ok ≡ true
        → (scan_boolean b'T' (codes "rue,b=1")).block ≡ word (codes "True,b=1"))
scan_boolean-accepts_example = scan_boolean-accepts b'T' (codes "rue,b=1") refl

capital_true : (scan_boolean b'T' (codes "rue,b=1")).ok ≡ true
unfolding scan_boolean scan_word is_boolean equal
capital_true = refl

misspelt : (scan_boolean b'T' (codes "rus")).ok ≡ false
unfolding scan_boolean scan_word is_boolean equal
misspelt = refl

scan_time-accepts_example :
    ((scan_time (codes "  -15")).ok ≡ integer (skip_whitespace (codes "  -15")))
    × ((scan_time (codes "  -15")).ok ≡ true
        → (scan_time (codes "  -15")).block ≡ skip_whitespace (codes "  -15"))
scan_time-accepts_example = scan_time-accepts (codes "  -15")

negative_time : (scan_time (codes "  -15")).ok ≡ true
unfolding scan_time scan_digits skip_whitespace
negative_time = refl

-- The least int64, and the integer below it, in a text that ParseInt has to read.
abbrev any_float : Bytes → Bool
any_float s = true

scan_number-parses_int_example :
    (scan_number any_float b'=' b'-' (codes "9223372036854775808" ++ b'i' ∷ codes ",b=1")).ok
    ≡ parses_int (codes "-9223372036854775808")
scan_number-parses_int_example =
    scan_number-parses_int any_float b'=' b'-' (codes "9223372036854775808") (codes ",b=1") refl
      digits_of refl
  where
    digits_of : all_digits (codes "9223372036854775808") ≡ true
    digits_of = unfold all_digits is_digit in refl

least_int64 : parses_int (codes "-9223372036854775808") ≡ true
unfolding parses_int decimal_digits all_digits is_digit decimal_value
least_int64 = refl

below_int64 : parses_int (codes "-9223372036854775809") ≡ false
unfolding parses_int decimal_digits all_digits is_digit decimal_value
below_int64 = refl

-- Two points, a suffix in the middle, and an exponent.
two_points : (scan_number any_float b'=' b'1' (codes ".2.3")).ok ≡ false
unfolding scan_number scan_loop is_number is_numeric is_digit
two_points = refl

middle_suffix : (scan_number any_float b'=' b'9' (codes "i10")).ok ≡ false
unfolding scan_number scan_loop is_number is_numeric is_digit parses_int
middle_suffix = refl

exponent : (scan_number any_float b'=' b'1' (codes ".5e-3,b")).ok ≡ true
unfolding scan_number scan_loop is_number is_numeric is_digit
exponent = refl
