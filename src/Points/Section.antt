-- ===== src/Points/Section.antt =====
-- misc/points.go: `scanFields`, the fields of a point.
pub mod Ends
use vgo.Prelude.{
  ℕ, zero, suc, ◌-◌, Bytes, Bool, true, false, not, ◌&&◌, ◌||◌, ◌==◌, ltb, List, [], ◌∷◌, ◌++◌,
  length, if◌then◌else◌,
}
use vgo.Prelude.Outcome.{Outcome, returned, out_of_fuel, then_call}
use vgo.Points.Scan.{Scanned, stop_at, past, skip_whitespace, scan_boolean}
use vgo.Points.Number.{Number, is_numeric, scan_number}

-- The two bytes before a position.
pub record Back : Type 0 where
  pub last : ℕ
  pub previous : ℕ

abbrev pub behind : Back → ℕ → Back
behind back c = record { last = c; previous = back.last }

abbrev pub behind_all : Back → Bytes → Back
behind_all back [] = back
behind_all back (c ∷ s) = behind_all (behind back c) s

abbrev pub past_byte : ℕ → Outcome Scanned → Outcome Scanned
past_byte c r = then_call r λ x. returned (past c x)

abbrev pub past_bytes : Bytes → Outcome Scanned → Outcome Scanned
past_bytes b r = then_call r λ x. returned (record x { block = b ++ x.block })

-- The tests after the loop.
abbrev pub is_balanced : (quoted : Bool) (equals commas : ℕ) → Bool
is_balanced quoted equals commas = not quoted && not (equals == 0 || not (commas == equals - 1))

module _ (parses_float : Bytes → Bool) where
  -- What stands behind an equals sign outside quotes.
  pub data Value : Type 0 where
    wrong : Value
    text : Value
    number : Number → Value
    boolean : Scanned → Value

  -- The tests at an equals sign, which look at the bytes before it and after it.
  unfoldable pub value_at : Back → Bytes → Value
  unfolding is_numeric
  value_at back [] = wrong
  value_at back (d ∷ s) =
      if back.last == b' ' && not (back.previous == b'\\')
      then wrong
      else if back.last == b',' && not (back.previous == b'\\')
      then wrong
      else if d == b',' || d == b' '
      then wrong
      else if is_numeric d || d == b'-' || d == b'N' || d == b'n'
      then number (scan_number parses_float b'=' d s)
      else if not (d == b'"')
      then boolean (scan_boolean d s)
      else text

  -- A round of the loop goes on at a later position, with `quoted`, `equals` and `commas`.
  abbrev pub Loop : Type 0
  Loop = Back → Bool → (equals commas : ℕ) → Bytes → Outcome Scanned

  -- One byte further.
  abbrev pub go_on : Loop → Back → Bool → (equals commas : ℕ) → ℕ → Bytes → Outcome Scanned
  go_on next back quoted equals commas c s = past_byte c (
      next (behind back c) quoted equals (if c == b',' && not quoted then suc commas else commas) s)

  -- At a backslash: two bytes further, if there are two.
  unfoldable pub at_escape : Loop → Back → Bool → (equals commas : ℕ) → ℕ → Bytes → Outcome Scanned
  at_escape next back quoted equals commas c [] = go_on next back quoted equals commas c []
  at_escape next back quoted equals commas c (d ∷ s) =
      past_bytes (c ∷ d ∷ []) (next (behind (behind back c) d) quoted equals commas s)

  -- Behind a value, or at its error.
  unfoldable pub behind_value :
      Loop → Back → Bool → (equals commas : ℕ) → ℕ → Scanned → Outcome Scanned
  behind_value next back quoted equals commas c v =
      if v.ok
      then past_bytes (c ∷ v.block)
          (next (behind_all back (c ∷ v.block)) quoted equals commas v.rest)
      else returned (record v { block = c ∷ v.block })

  unfoldable pub at_equals :
      Loop → Back → Bool → (equals commas : ℕ) → ℕ → Bytes → Value → Outcome Scanned
  unfolding behind_value
  at_equals next back quoted equals commas c s wrong = returned (stop_at (c ∷ s) false)
  at_equals next back quoted equals commas c s text =
      past_byte c (next (behind back c) quoted equals commas s)
  at_equals next back quoted equals commas c s (number n) =
      behind_value next back quoted equals commas c
        (record { block = n.block; rest = n.rest; ok = n.ok })
  at_equals next back quoted equals commas c s (boolean b) =
      behind_value next back quoted equals commas c b

  -- The loop of `scanFields`.
  unfoldable pub fields_loop : (fuel : ℕ) → Loop
  unfolding value_at at_escape at_equals
  fields_loop zero back quoted equals commas s = out_of_fuel
  fields_loop (suc fuel) back quoted equals commas [] =
      returned (stop_at [] (is_balanced quoted equals commas))
  fields_loop (suc fuel) back quoted equals commas (c ∷ s) =
      let next = fields_loop fuel in
      let escaped = at_escape next back quoted equals commas c s in
      let toggled = past_byte c (next (behind back c) (not quoted) equals commas s) in
      let valued = at_equals next back quoted (suc equals) commas c s (value_at back s) in
      let later = go_on next back quoted equals commas c s in
      if c == b'\\' && ltb 0 (length s)
      then escaped
      else if c == b'"' && ltb commas equals
      then toggled
      else if c == b'=' && not quoted
      then valued
      else if c == b' ' && not quoted
      then returned (stop_at (c ∷ s) (is_balanced quoted equals commas))
      else later

  -- The bytes skipped by `skipWhitespace`, for those before the start.
  unfoldable pub fields_back : Back → Bytes → Back
  fields_back back [] = back
  fields_back back (c ∷ s) =
      if not (c == b' ') && not (c == 9) && not (c == 0)
      then back
      else fields_back (behind back c) s

  unfoldable pub scan_fields : Back → Bytes → Outcome Scanned
  unfolding fields_loop fields_back skip_whitespace
  scan_fields back buf =
      let s = skip_whitespace buf in fields_loop (suc (length s)) (fields_back back buf) false 0 0 s
