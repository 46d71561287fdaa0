-- ===== src/Points/Key.antt =====
-- misc/points.go: `scanKey` and what it calls. A position in the buffer is the bytes from there,
-- with the byte before it where the code looks back.
use vgo.Prelude.{
  ℕ, Bytes, Bool, true, false, not, ◌&&◌, ◌||◌, ◌==◌, [], ◌∷◌, Option, none, some, if◌then◌else◌,
}
use vgo.Prelude.Outcome.{Outcome, returned, panicked}
use vgo.Points.Scan.{Scanned, stop_at, past}

abbrev pub is_escape : Option ℕ → Bool
is_escape none = false
is_escape (some c) = c == b'\\'

-- `scanTo`, with the byte before the position; `none` at the start of the buffer.
unfoldable pub scan_to : (stop : ℕ) → Option ℕ → Bytes → Scanned
scan_to stop prev [] = stop_at [] true
scan_to stop prev (c ∷ s) =
    if c == stop && not (is_escape prev)
    then stop_at (c ∷ s) true
    else past c (scan_to stop (some c) s)

-- The loop of `scanToSpaceOr`, behind this byte. Its end test stands behind the escape test, so that
-- a buffer that ends in a backslash is left: a panic, which `none` stands for.
unfoldable pub space_or_loop : (stop : ℕ) → ℕ → Bytes → Option Bytes
space_or_loop stop prev [] = if prev == b'\\' then none else some []
space_or_loop stop prev (c ∷ s) =
    let later = space_or_loop stop c s in
    if not (prev == b'\\') && (c == stop || c == b' ')
    then some []
    else elim later [ none ↦ none | some block ↦ some (c ∷ block) ]

-- The block of `scanToSpaceOr`.
unfoldable pub scan_to_space_or : (stop : ℕ) → Bytes → Option Bytes
unfolding space_or_loop
scan_to_space_or stop [] = none
scan_to_space_or stop (c ∷ s) =
    if c == stop || c == b' '
    then some []
    else elim (space_or_loop stop c s) [ none ↦ none | some block ↦ some (c ∷ block) ]

-- The states of the scan, and where one step of it ends: `none` is an error.
pub data State : Type 0 where
  tag_key fields : State

pub record Step : Type 0 where
  pub taken : Bytes
  pub rest : Bytes
  pub next : Option State

abbrev pub step_at : Bytes → Option State → Step
step_at s next = record { taken = []; rest = s; next = next }

abbrev pub step_past : ℕ → Step → Step
step_past c r = record r { taken = c ∷ r.taken }

-- The loop of `scanMeasurement`, behind this byte.
unfoldable pub measurement_loop : ℕ → Bytes → Step
measurement_loop prev [] = step_at [] none
measurement_loop prev (c ∷ s) =
    let later = step_past c (measurement_loop c s) in
    if prev == b'\\'
    then later
    else if c == b','
    then step_past c (step_at s (some tag_key))
    else if c == b' '
    then step_at (c ∷ s) (some fields)
    else later

-- `scanMeasurement`; the empty buffer is read out of range.
unfoldable pub scan_measurement : Bytes → Outcome Step
unfolding measurement_loop
scan_measurement [] = panicked
scan_measurement (c ∷ s) =
    returned (if c == b',' then step_at (c ∷ s) none else step_past c (measurement_loop c s))

-- The loop of `scanTagsKey`, behind this byte.
unfoldable pub tag_key_loop : ℕ → Bytes → Scanned
tag_key_loop prev [] = stop_at [] false
tag_key_loop prev (c ∷ s) =
    if (c == b' ' || c == b',') && not (prev == b'\\')
    then stop_at (c ∷ s) false
    else if c == b'=' && not (prev == b'\\')
    then past c (stop_at s true)
    else past c (tag_key_loop c s)

unfoldable pub scan_tags_key : Bytes → Scanned
unfolding tag_key_loop
scan_tags_key [] = stop_at [] false
scan_tags_key (c ∷ s) =
    if c == b' ' || c == b',' || c == b'=' then stop_at (c ∷ s) false else past c (tag_key_loop c s)

-- The loop of `scanTagsValue`, behind this byte.
unfoldable pub tag_value_loop : ℕ → Bytes → Step
tag_value_loop prev [] = step_at [] none
tag_value_loop prev (c ∷ s) =
    if c == b'=' && not (prev == b'\\')
    then step_at (c ∷ s) none
    else if c == b',' && not (prev == b'\\')
    then step_past c (step_at s (some tag_key))
    else if c == b' ' && not (prev == b'\\')
    then step_at (c ∷ s) (some fields)
    else step_past c (tag_value_loop c s)

unfoldable pub scan_tags_value : Bytes → Step
unfolding tag_value_loop
scan_tags_value [] = step_at [] none
scan_tags_value (c ∷ s) =
    if c == b',' || c == b' ' then step_at (c ∷ s) none else step_past c (tag_value_loop c s)
