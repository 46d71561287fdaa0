-- ===== src/Points/Tests/Fields.antt =====
-- Runs of the fields of a point on concrete ones, and the theorems at them. A float is written as
-- the decimal number of its bits.
use vgo.Prelude.{
  before, ℕ, zero, suc, Bytes, codes, equal, Bool, true, false, ◌==◌, ◌≡◌, refl, arith, [], ◌∷◌,
  ◌++◌, append-nil, subst, Option, none, some, get_or, if◌then◌else◌,
}
use vgo.Prelude.Decimal.{itoa}
use vgo.Prelude.Int.{pos, negsuc}
use vgo.Prelude.Dict.{Dict, lookup, insert}
use vgo.Prelude.Outcome.{returned, panicked}
use vgo.Points.Escape.{escape_string_field, escape_tag, escape_measurement, unescape_measurement}
use vgo.Points.Key.{scan_to}
use vgo.Points.Number.{all_digits, is_digit, decimal_value}
use vgo.Points.TagMap.Escaped.{NoSlash}
use vgo.Points.Fields.{
  Field, integer, float, boolean, text, nothing, value_bytes, scan_field_value, marshal_fields,
  new_fields_from_binary, value_of,
}
use vgo.Points.Fields.Integers.{itoa-Digits}
use vgo.Points.Fields.Values.{FloatLaws, StartsNumber, digits-IsBare, Digits-StartsNumber}
use vgo.Points.TagMap.{make_key}
use vgo.Points.Time.{check_time}
use vgo.Points.Build.{new_point}
use vgo.Points.Build.ReadBack.{Built, new_point-Built}
use vgo.Points.Fields.Names.{EscapeLaws, escape_codes}
use vgo.Points.Fields.RoundTrip.{new_fields-marshal_fields}

parse_digits : Bytes → Option ℕ
parse_digits s = if all_digits s then some (decimal_value 0 s) else none

no_suffix : (s : Bytes) (i : ℕ) → all_digits s ≡ true → (get_or s i 0 == b'i') ≡ false
unfolding all_digits is_digit
no_suffix [] i h = refl
no_suffix (c ∷ s) zero h = ground arith
no_suffix (c ∷ s) (suc i) h = no_suffix s i (ground arith)

abbrev write_float : (bits : ℕ) → ℕ → Bytes
write_float bits x = itoa x

laws : FloatLaws write_float parse_digits
laws = record {
  starts = λ x h.
      subst StartsNumber (append-nil (itoa x)) (Digits-StartsNumber x (itoa x) [] (itoa-Digits x));
  bare = λ x h. digits-IsBare (itoa x) (itoa-Digits x).all;
  no_suffix = λ x h. no_suffix (itoa x) _ (itoa-Digits x).all;
  reads = λ x h. unfold parse_digits in rw ((itoa-Digits x).all, (itoa-Digits x).value) refl;
}

-- A backslash goes; the byte behind it stays.
drop_slashes : Bool → Bytes → Bytes
drop_slashes escaped [] = []
drop_slashes true (c ∷ s) = c ∷ drop_slashes false s
drop_slashes false (c ∷ s) = if c == b'\\' then drop_slashes true s else c ∷ drop_slashes false s

drop-escape : (s : Bytes) → NoSlash s → drop_slashes false (escape_codes s) ≡ s
unfolding drop_slashes escape_codes
drop-escape [] h = refl
drop-escape (c ∷ s) h = ground (arith, drop-escape s h.1, h.0)

escape_laws : EscapeLaws escape_codes (drop_slashes false)
escape_laws = record { escapes = λ s h. refl; undoes = drop-escape }

abbrev three_fields : Dict Field
three_fields =
    (codes "v", float 7) ∷ (codes "n x", integer (negsuc 4)) ∷ (codes "t", text (codes "a,b")) ∷ []

new_fields-marshal_fields_example :
    (read : Dict Field) × (new_fields_from_binary parse_digits
        (drop_slashes false)
        false
        (marshal_fields write_float escape_codes three_fields)
      ≡ returned read)
    × ((j : Bytes) → lookup j read ≡ lookup j three_fields)
new_fields-marshal_fields_example =
    new_fields-marshal_fields write_float parse_digits escape_codes (drop_slashes false) laws
      escape_laws three_fields false
      (
        record {
          key_plain = (refl, tt);
          has_key = omega arith;
          stored = (omega arith, omega arith);
        },
        (
          record {
            key_plain = (refl, (refl, (refl, tt)));
            has_key = omega arith;
            stored = omega arith;
          },
          (
            record {
              key_plain = (refl, tt);
              has_key = omega arith;
              stored = (refl, (refl, (refl, tt)));
            },
            tt,
          ),
        ),
      )

-- A text that ends in a backslash does not end at its quote.
swallows_text :
    scan_field_value false (value_bytes write_float (text (codes "\\")) ++ codes ",b=1i")
    ≡ record { block = codes "\"\\\\\",b=1i"; rest = []; ok = true }
unfolding scan_field_value value_bytes escape_string_field
swallows_text = refl

-- Behind a field without a value, the comma goes into the next name.
comma_name :
    new_fields_from_binary parse_digits (drop_slashes false) false (codes "a=,b=true")
    ≡ returned ((codes "a", nothing) ∷ (codes ",b", boolean true) ∷ [])
unfolding new_fields_from_binary scan_to drop_slashes equal insert
comma_name = refl

-- An infinite float is written with a sign, and read as a Boolean.
infinite : value_of parse_digits b'+' (codes "Inf") ≡ panicked
unfolding value_of equal
infinite = refl

new_point-Built_example :
    Built parse_digits
      (drop_slashes false)
      true
      ((codes "h", codes "a b") ∷ [])
      ((codes "v", float 7) ∷ [])
      (pos 12)
      (new_point write_float escape_codes
        (codes "cpu")
        ((codes "h", codes "a b") ∷ [])
        ((codes "v", float 7) ∷ [])
        (pos 12))
unfolding lookup make_key escape_measurement unescape_measurement escape_tag insert equal before
    check_time
new_point-Built_example =
    new_point-Built write_float parse_digits escape_codes (drop_slashes false) true (codes "cpu")
      ((codes "h", codes "a b") ∷ []) ((codes "v", float 7) ∷ []) (pos 12) laws escape_laws
      (refl, (refl, (refl, tt))) (omega arith) (refl, tt)
      (
        record {
          key_plain = (refl, tt);
          value_plain = (refl, (refl, (refl, tt)));
          has_value = omega arith;
        },
        tt,
      )
      (omega arith)
      (
        record {
          key_plain = (refl, tt);
          has_key = omega arith;
          stored = (omega arith, omega arith);
        },
        tt,
      )
      refl (omega arith)
