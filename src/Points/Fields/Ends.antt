-- ===== src/Points/Fields/Ends.antt =====
-- `parseTags` and `newFieldsFromBinary` of misc/points.go end on every text.
use vgo.Prelude.{
  ℕ, zero, suc, ◌≤◌, ◌<◌, Bytes, Bool, false, not, ◌==◌, arith, [], ◌∷◌, Option, none, some, length,
}
use vgo.Prelude.Dict.{Dict}
use vgo.Prelude.Outcome.{Outcome, Ends, returned-Ends, panicked-Ends, if-Ends, then_call-Ends}
use vgo.Points.Key.{scan_to}
use vgo.Points.TagMap.{parse_tags}
use vgo.Points.TagMap.Ends.{scan_to-le, parse_tags-Ends}
use vgo.Points.Fields.{
  Field, or_panic, scan_field_value, value_of, next_byte, add_field, add_name, from_loop,
  new_fields_from_binary,
}

scan_field_value-le :
    (quoted : Bool) (s : Bytes) → length (scan_field_value quoted s).rest ≤ length s
unfolding scan_field_value
scan_field_value-le quoted [] = omega arith
scan_field_value-le quoted (c ∷ []) = ground arith
scan_field_value-le quoted (c ∷ d ∷ s) = ground (
  arith,
  scan_field_value-le quoted s,
  scan_field_value-le quoted (d ∷ s),
  scan_field_value-le (not quoted) (d ∷ s),
)

or_panic-Ends : (v : Option Field) → Ends (or_panic v)
or_panic-Ends none = panicked-Ends
or_panic-Ends (some v) = returned-Ends _

module _ (parse_float : Bytes → Option ℕ) where
  value_of-Ends : (c : ℕ) (s : Bytes) → Ends (value_of parse_float c s)
  unfolding value_of
  value_of-Ends c s =
      if-Ends (c == b'"') (if-Ends (length s == 0) panicked-Ends (returned-Ends _))
        (if-Ends _ (or_panic-Ends _) (or_panic-Ends _))

  module _ (fuel : ℕ) (loop : ℕ → Bytes → Dict Field → Outcome (Dict Field))
      (loop_ends : (prev : ℕ) (s : Bytes) (m : Dict Field)
        → length s < fuel
        → Ends (loop prev s m)) where
    next_byte-Ends :
        (rest : Bytes) (m : Dict Field) → length rest < fuel → Ends (next_byte loop rest m)
    next_byte-Ends [] m h = returned-Ends _
    next_byte-Ends (d ∷ rest) m h = loop_ends d rest m (omega arith)

    add_field-Ends :
        (name value rest : Bytes) (m : Dict Field)
        → length rest < fuel
        → Ends (add_field parse_float loop name value rest m)
    add_field-Ends [] value rest m h = next_byte-Ends rest m h
    add_field-Ends (n ∷ name) [] rest m h = loop_ends _ rest _ h
    add_field-Ends (n ∷ name) (c ∷ value) rest m h =
        then_call-Ends _ _ (value_of-Ends c value) λ v e. next_byte-Ends rest _ h

    add_name-Ends :
        (room : Bool) (name rest : Bytes) (m : Dict Field)
        → length rest ≤ fuel
        → Ends (add_name parse_float loop room name rest m)
    add_name-Ends room [] [] m h = if-Ends room (returned-Ends _) panicked-Ends
    add_name-Ends room (n ∷ name) [] m h = if-Ends room (returned-Ends _) panicked-Ends
    add_name-Ends room [] (e ∷ rest) m h =
        let value = scan_field_value false rest in
        let le = scan_field_value-le false rest in
        add_field-Ends [] value.block value.rest m (omega arith)
    add_name-Ends room (n ∷ name) (e ∷ rest) m h =
        let value = scan_field_value false rest in
        let le = scan_field_value-le false rest in
        add_field-Ends (n ∷ name) value.block value.rest m (omega arith)

  module _ (unescape : Bytes → Bytes) where
    from_loop-Ends :
        (fuel : ℕ) (room : Bool) (prev : Option ℕ) (s : Bytes) (m : Dict Field)
        → length s < fuel
        → Ends (from_loop parse_float unescape fuel room prev s m)
    unfolding from_loop
    from_loop-Ends zero room prev s m h = absurd (omega arith)
    from_loop-Ends (suc fuel) room prev [] m h = returned-Ends _
    from_loop-Ends (suc fuel) room prev (c ∷ s) m h =
        let name = scan_to b'=' prev (c ∷ s) in
        let le = scan_to-le b'=' prev (c ∷ s) in
        add_name-Ends fuel (λ d. from_loop parse_float unescape fuel room (some d))
          (λ d. from_loop-Ends fuel room (some d)) room (unescape name.block) name.rest m
          (omega arith)

    -- Whatever the bytes and their spare capacity, the loops of newFieldsFromBinary and of
    -- parseTags come to an end: each returns a map or panics.
    pub tags_and_fields-Ends :
        (room : Bool) (buf : Bytes)
        → Ends (new_fields_from_binary parse_float unescape room buf) × Ends (parse_tags room buf)
    unfolding new_fields_from_binary
    tags_and_fields-Ends room buf =
        (from_loop-Ends (suc (length buf)) room none buf [] (omega arith), parse_tags-Ends room buf)
