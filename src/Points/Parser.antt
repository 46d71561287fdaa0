-- ===== src/Points/Parser.antt =====
-- misc/points.go: `parsePoint`, `SetPrecision` and `ParsePointsWithPrecision`.
pub mod Ends
use vgo.Prelude.{
  ℕ, zero, suc, ◌+◌, ◌-◌, ◌*◌, ◌/◌, ◌%◌, Bytes, codes, equal, Bool, true, false, not, ◌&&◌, ◌||◌,
  ◌==◌, ltb, leb, List, [], ◌∷◌, ◌++◌, ◌⊎◌, inl, inr, Option, none, some, length, take, get_or,
  if◌then◌else◌,
}
use vgo.Prelude.Int.{ℤ, pos, negsuc, sub_ℕ}
use vgo.Prelude.Outcome.{Outcome, returned, panicked, out_of_fuel, then_call}
use vgo.Points.Binary.{Point}
use vgo.Points.Time.{safe_calc_time}
use vgo.Points.Number.{decimal_value, parses_int}
use vgo.Points.Scan.{Scanned, skip_whitespace, scan_time}
use vgo.Points.Line.{Line, scan_line}
use vgo.Points.Tags.{Key, scan_key}
use vgo.Points.Section.{Back, behind_all, scan_fields}

-- Why a line is not a point; the messages of the scanners are not told apart.
pub data Error : Type 0 where
  bad_key missing_measurement bad_fields missing_fields bad_time time_out_of_range : Error
  key_too_long : ℕ → Error

-- `strconv.ParseInt(s, 10, 64)`.
unfoldable pub parse_int : Bytes → Option ℤ
unfolding parses_int decimal_value
parse_int [] = none
parse_int (c ∷ s) =
    if not (parses_int (c ∷ s))
    then none
    else if c == b'-'
    then some (sub_ℕ 0 (decimal_value 0 s))
    else if c == b'+'
    then some (pos (decimal_value 0 s))
    else some (pos (decimal_value 0 (c ∷ s)))

-- `Time.Truncate`: down to a multiple of so many nanoseconds since the year 1, which is a whole
-- number of hours before the epoch.
unfoldable pub truncate : (d : ℕ) → ℤ → ℤ
truncate d (pos n) = pos (n - n % d)
truncate d (negsuc n) = negsuc (n - n % d + d - 1)

-- `SetPrecision`.
unfoldable pub set_precision : Bytes → ℤ → ℤ
unfolding equal truncate
set_precision precision t =
    if equal precision (codes "u")
    then truncate 1000 t
    else if equal precision (codes "ms")
    then truncate 1000000 t
    else if equal precision (codes "s")
    then truncate 1000000000 t
    else if equal precision (codes "m")
    then truncate 60000000000 t
    else if equal precision (codes "h")
    then truncate 3600000000000 t
    else t

-- The time of a point: the text's, or else the default.
unfoldable pub time_of : (default_time : ℤ) (precision ts : Bytes) → ℤ ⊎ Error
unfolding parse_int set_precision safe_calc_time
time_of default_time precision [] = inl (set_precision precision default_time)
time_of default_time precision (c ∷ ts) = elim (parse_int (c ∷ ts)) [
  | none ↦ inr bad_time
  | some n ↦ elim (safe_calc_time n precision) [ none ↦ inr time_out_of_range | some t ↦ inl t ]
]

abbrev pub max_key_length : ℕ
max_key_length = 65535

-- What `ParsePointsWithPrecision` returns: the points, and the lines that failed with their errors.
pub record Parsed : Type 0 where
  pub points : List (Point ℤ)
  pub failed : List (Bytes × Error)

abbrev pub nothing_more : Parsed
nothing_more = record { points = []; failed = [] }

abbrev pub add_result : Bytes → Point ℤ ⊎ Error → Parsed → Parsed
add_result block (inl p) more = record more { points = p ∷ more.points }
add_result block (inr e) more = record more { failed = (block, e) ∷ more.failed }

-- `pos++` at the end of a line: past the newline, or past the end of the buffer.
abbrev pub next_rest : Bytes → Bytes
next_rest [] = []
next_rest (c ∷ s) = s

abbrev pub next_over : Bytes → ℕ → ℕ
next_over [] over = suc over
next_over (c ∷ s) over = 0

module _ (parses_float : Bytes → Bool) (default_time : ℤ) (precision : Bytes) where
  -- The text behind the fields, `scanTime` and the point.
  unfoldable pub point_of : (key fields rest : Bytes) → Point ℤ ⊎ Error
  unfolding time_of scan_time
  point_of key fields rest =
      let ts = scan_time rest in
      if not ts.ok then inr bad_time else elim (time_of default_time precision ts.block) [
        | inr e ↦ inr e
        | inl t ↦ inl (record { time = t; key = key; fields = fields })
      ]

  unfoldable pub parse_point : Bytes → Outcome (Point ℤ ⊎ Error)
  unfolding scan_key scan_fields point_of
  parse_point buf = then_call (scan_key buf) λ k.
      if not k.ok
      then returned (inr bad_key)
      else if length k.key == 0
      then returned (inr missing_measurement)
      else if ltb max_key_length (length k.key)
      then returned (inr (key_too_long (length k.key)))
      else then_call
          (scan_fields parses_float
            (behind_all (record { last = 0; previous = 0 }) (take (length buf - length k.rest) buf))
            k.rest)
          λ f.
            if not f.ok
            then returned (inr bad_fields)
            else if length f.block == 0
            then returned (inr missing_fields)
            else returned (point_of k.key f.block f.rest)

  -- `if block[len(block)-1] == '\n'`.
  unfoldable pub strip_newline : Bytes → Bytes
  strip_newline block =
      if get_or block (length block - 1) 0 == 10 then take (length block - 1) block else block

  -- A line that is not skipped, from its first byte that is not white.
  unfoldable pub line_text : Bytes → Option Bytes
  unfolding skip_whitespace strip_newline
  line_text block = elim (skip_whitespace block) [
    | [] ↦ none
    | c ∷ s ↦ if c == b'#' then none else some (skip_whitespace (strip_newline block))
  ]

  -- The loop, at a position in a buffer with spare capacity.
  unfoldable pub parse_lines : (fuel : ℕ) (spare : Bytes) → Bytes → (over : ℕ) → Outcome Parsed
  unfolding scan_line line_text parse_point
  parse_lines zero spare rest over = out_of_fuel
  parse_lines (suc fuel) spare rest over = then_call (scan_line spare rest over) λ line.
      let rest' = next_rest line.rest in
      let over' = next_over line.rest line.over in
      if length line.block == 0 then returned nothing_more else elim (line_text line.block) [
        | none ↦ parse_lines fuel spare rest' over'
        | some text ↦ then_call (parse_point text) λ p.
            if length rest' == 0
            then returned (add_result text p nothing_more)
            else then_call (parse_lines fuel spare rest' over')
                λ more. returned (add_result text p more)
      ]

  unfoldable pub parse_points : (spare : Bytes) → Bytes → Outcome Parsed
  unfolding parse_lines
  parse_points spare buf = parse_lines (suc (suc (length buf))) spare buf 0
