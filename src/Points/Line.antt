-- ===== src/Points/Line.antt =====
-- misc/points.go: `scanLine`. The buffer is a slice with spare capacity: the bytes between its
-- length and its capacity can be sliced, and a slice beyond them is a panic. A position past the
-- end is the number of bytes that it lies past it.
use vgo.Prelude.{
  ℕ, suc, Bytes, Bool, false, not, ◌&&◌, ◌||◌, ◌==◌, ltb, leb, [], ◌∷◌, length, if◌then◌else◌,
}
use vgo.Prelude.Outcome.{Outcome, returned, panicked, then_call}

pub record Line : Type 0 where
  pub block : Bytes
  pub rest : Bytes
  pub over : ℕ

abbrev pub end_line : Bytes → Line
end_line s = record { block = []; rest = s; over = 0 }

abbrev pub past_line : ℕ → Outcome Line → Outcome Line
past_line c line = then_call line λ l. returned (record l { block = c ∷ l.block })

-- `buf[start:i]` with `i` one past the end.
abbrev pub overrun : (spare : Bytes) → ℕ → Outcome Line
overrun [] c = panicked
overrun (d ∷ spare) c = returned (record { block = c ∷ d ∷ []; rest = []; over = 1 })

-- The loop, with `quoted`, `fields`, `equals` and `commas`.
unfoldable pub line_loop :
    (spare : Bytes) (quoted fields : Bool) (equals commas : ℕ) → Bytes → Outcome Line
line_loop spare quoted fields equals commas [] = returned (end_line [])
line_loop spare quoted fields equals commas (c ∷ []) =
    if c == b'\\'
    then overrun spare c
    else if c == 10 && not quoted
    then returned (end_line (c ∷ []))
    else past_line c (returned (end_line []))
line_loop spare quoted fields equals commas (c ∷ d ∷ s) =
    let in_fields = fields || c == b' ' in
    let is_equals = in_fields && not quoted && c == b'=' in
    let is_comma = in_fields && not quoted && c == b',' in
    let is_quote = in_fields && c == b'"' && ltb commas equals in
    let escaped = line_loop spare quoted fields equals commas s in
    let later =
      line_loop spare (if is_quote then not quoted else quoted) in_fields
        (if is_equals then suc equals else equals) (if is_comma then suc commas else commas)
        (d ∷ s) in
    if c == b'\\'
    then past_line c (past_line d escaped)
    else if c == 10 && not quoted
    then returned (end_line (c ∷ d ∷ s))
    else past_line c later

-- `scanLine` at a position in the buffer.
unfoldable pub scan_line : (spare : Bytes) → Bytes → (over : ℕ) → Outcome Line
unfolding line_loop
scan_line spare rest over =
    if over == 0
    then line_loop spare false false 0 0 rest
    else if leb over (length spare)
    then returned (record { block = []; rest = []; over = over })
    else panicked
