-- ===== src/Points/Section/Ends.antt =====
-- `scanFields` of misc/points.go ends: each round of its loop goes over at least one byte.
use vgo.Prelude.{
  ℕ, zero, suc, ◌≤◌, ◌<◌, Bytes, Bool, true, false, not, ◌&&◌, ◌||◌, ◌==◌, ltb, arith, [], ◌∷◌,
  length, if◌then◌else◌, both-if,
}
use vgo.Prelude.Outcome.{Outcome, Ends, returned-Ends, if-Ends, then_call-Ends}
use vgo.Points.Scan.{Scanned, skip_whitespace, scan_word, scan_boolean}
use vgo.Points.Number.{is_numeric, scan_loop, scan_number}
use vgo.Points.Section.{
  Back, Value, value_at, Loop, at_escape, behind_value, at_equals, fields_loop, fields_back,
  scan_fields, past_byte, past_bytes, behind,
}

scan_word-le : (s : Bytes) → length (scan_word s).rest ≤ length s
unfolding scan_word
scan_word-le [] = omega arith
scan_word-le (c ∷ s) = ground (arith, scan_word-le s)

scan_boolean-le : (c : ℕ) (s : Bytes) → length (scan_boolean c s).rest ≤ suc (length s)
unfolding scan_boolean
scan_boolean-le c s = ground (arith, scan_word-le s)

scan_loop-le :
    (at_start : Bool) (prev : ℕ) (int decimal scientific : Bool) (s : Bytes)
    → length (scan_loop at_start prev int decimal scientific s).rest ≤ length s
unfolding scan_loop
scan_loop-le at_start prev int decimal scientific [] = omega arith
scan_loop-le at_start prev int decimal scientific (c ∷ s) =
    let starts_suffix = c == b'i' && not at_start && not int in
    let is_exponent = not at_start && (c == b'e' || c == b'E') in
    let later =
      scan_loop-le false c (int || starts_suffix) (decimal || c == b'.') (scientific || is_exponent)
        s in
    ground (arith, later)

scan_number-le :
    (pf : Bytes → Bool) (prev c : ℕ) (s : Bytes)
    → length (scan_number pf prev c s).rest ≤ suc (length s)
unfolding scan_number
scan_number-le pf prev c s = ground (
  arith,
  scan_loop-le false b'-' false false false s,
  scan_loop-le true prev false false false (c ∷ s),
)

past_byte-Ends : (c : ℕ) {r : Outcome Scanned} → Ends r → Ends (past_byte c r)
past_byte-Ends c {r} h = then_call-Ends r _ h λ x e. returned-Ends _

past_bytes-Ends : (b : Bytes) {r : Outcome Scanned} → Ends r → Ends (past_bytes b r)
past_bytes-Ends b {r} h = then_call-Ends r _ h λ x e. returned-Ends _

module _ (pf : Bytes → Bool) where
  ValueLe : Bytes → Value pf → Type 0
  ValueLe s (Value.number n) = length n.rest ≤ length s
  ValueLe s (Value.boolean b) = length b.rest ≤ length s
  ValueLe s _ = Unit

  -- No value, no bytes.
  wrong_le : (s : Bytes) → ValueLe s Value.wrong
  unfolding ValueLe
  wrong_le s = tt

  text_le : (s : Bytes) → ValueLe s Value.text
  unfolding ValueLe
  text_le s = tt

  number_le : (d : ℕ) (s : Bytes) → ValueLe (d ∷ s) (Value.number (scan_number pf b'=' d s))
  unfolding ValueLe
  number_le d s = scan_number-le pf b'=' d s

  boolean_le : (d : ℕ) (s : Bytes) → ValueLe (d ∷ s) (Value.boolean (scan_boolean d s))
  unfolding ValueLe
  boolean_le d s = scan_boolean-le d s

  value_at-le : (back : Back) (s : Bytes) → ValueLe s (value_at pf back s)
  unfolding value_at
  value_at-le back [] = wrong_le []
  value_at-le back (d ∷ s) =
      let wrong = wrong_le (d ∷ s) in
      let P = ValueLe (d ∷ s) in
      both-if P (back.last == b' ' && not (back.previous == b'\\')) wrong (
        both-if P (back.last == b',' && not (back.previous == b'\\')) wrong (
          both-if P (d == b',' || d == b' ') wrong (
            both-if P (is_numeric d || d == b'-' || d == b'N' || d == b'n') (number_le d s)
              (both-if P (not (d == b'"')) (boolean_le d s) (text_le (d ∷ s))))))

  module _ (fuel : ℕ) (next : Loop pf)
      (next_ends : (back : Back) (quoted : Bool) (equals commas : ℕ) (s : Bytes)
        → length s < fuel
        → Ends (next back quoted equals commas s))
      (back : Back) (quoted : Bool) (equals commas c : ℕ) where
    at_escape-Ends :
        (s : Bytes) → length s < fuel → Ends (at_escape pf next back quoted equals commas c s)
    unfolding at_escape
    at_escape-Ends [] h = past_byte-Ends c (next_ends _ quoted equals _ [] h)
    at_escape-Ends (d ∷ s) h =
        past_bytes-Ends (c ∷ d ∷ []) (next_ends _ quoted equals commas s (omega arith))

    behind_value-Ends :
        (s : Bytes) (v : Scanned)
        → length s < fuel
        → length v.rest ≤ length s
        → Ends (behind_value pf next back quoted equals commas c v)
    unfolding behind_value
    behind_value-Ends s v h le =
        if-Ends v.ok
          (past_bytes-Ends (c ∷ v.block) (next_ends _ quoted equals commas v.rest (omega arith)))
          (returned-Ends _)

    at_equals-Ends :
        (s : Bytes) (v : Value pf)
        → length s < fuel
        → ValueLe s v
        → Ends (at_equals pf next back quoted equals commas c s v)
    unfolding at_equals ValueLe
    at_equals-Ends s Value.wrong h le = returned-Ends _
    at_equals-Ends s Value.text h le = past_byte-Ends c (next_ends _ quoted equals commas s h)
    at_equals-Ends s (Value.number n) h le =
        behind_value-Ends s (record { block = n.block; rest = n.rest; ok = n.ok }) h le
    at_equals-Ends s (Value.boolean b) h le = behind_value-Ends s b h le

  pub fields_loop-Ends :
      (fuel : ℕ) (back : Back) (quoted : Bool) (equals commas : ℕ) (s : Bytes)
      → length s < fuel
      → Ends (fields_loop pf fuel back quoted equals commas s)
  unfolding fields_loop
  fields_loop-Ends zero back quoted equals commas s h = absurd (omega arith)
  fields_loop-Ends (suc fuel) back quoted equals commas [] h = returned-Ends _
  fields_loop-Ends (suc fuel) back quoted equals commas (c ∷ s) h =
      let rec = fields_loop-Ends fuel in
      let small : length s < fuel = omega arith in
      if-Ends (c == b'\\' && ltb 0 (length s))
        (at_escape-Ends fuel (fields_loop pf fuel) rec back quoted equals commas c s small)
        (if-Ends (c == b'"' && ltb commas equals)
          (past_byte-Ends c (rec (behind back c) (not quoted) equals commas s small))
          (if-Ends (c == b'=' && not quoted)
            (at_equals-Ends fuel (fields_loop pf fuel) rec back quoted (suc equals) commas c s
              (value_at pf back s) small (value_at-le back s))
            (if-Ends (c == b' ' && not quoted) (returned-Ends _) (
              past_byte-Ends c (
                rec (behind back c) quoted equals
                  (if c == b',' && not quoted then suc commas else commas) s small)))))

  pub scan_fields-Ends : (back : Back) (s : Bytes) → Ends (scan_fields pf back s)
  unfolding scan_fields
  scan_fields-Ends back s =
      let t = skip_whitespace s in
      fields_loop-Ends (suc (length t)) (fields_back pf back s) false 0 0 t (omega arith)
