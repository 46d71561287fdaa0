-- ===== src/Points/Scan.antt =====
-- misc/points.go: scanners of the line protocol. The Go code keeps a position in the buffer; here
-- the buffer is what is left from that position, and a scan splits it.
pub mod Accepts
use vgo.Prelude.{
  ℕ, suc, Bytes, codes, equal, Bool, true, false, not, ◌&&◌, ◌||◌, ◌==◌, ltb, List, [], ◌∷◌, length,
  if◌then◌else◌,
}

-- The block before the end position, what is left there, and whether there was no error.
pub record Scanned : Type 0 where
  pub block : Bytes
  pub rest : Bytes
  pub ok : Bool

abbrev pub stop_at : Bytes → Bool → Scanned
stop_at s ok = record { block = []; rest = s; ok = ok }

abbrev pub past : ℕ → Scanned → Scanned
past c r = record r { block = c ∷ r.block }

unfoldable pub skip_whitespace : Bytes → Bytes
skip_whitespace [] = []
skip_whitespace (c ∷ s) =
    if not (c == b' ') && not (c == 9) && not (c == 0) then c ∷ s else skip_whitespace s

-- The loop of `scanTime`; the flag says that the position is the start.
unfoldable pub scan_digits : Bool → Bytes → Scanned
scan_digits at_start [] = stop_at [] true
scan_digits at_start (c ∷ s) =
    let later = scan_digits false s in
    if ltb c b'0' || ltb b'9' c
    then if at_start && c == b'-' then past c later else stop_at (c ∷ s) false
    else if c == 10
    then stop_at (c ∷ s) true
    else past c later

unfoldable pub scan_time : Bytes → Scanned
unfolding skip_whitespace scan_digits
scan_time buf = scan_digits true (skip_whitespace buf)

-- The loop of `scanBoolean`, to a comma, a space or the end.
unfoldable pub scan_word : Bytes → Scanned
scan_word [] = stop_at [] true
scan_word (c ∷ s) = if c == b',' || c == b' ' then stop_at (c ∷ s) true else past c (scan_word s)

-- The tests of `scanBoolean` after its loop, on the first byte and the others.
unfoldable pub is_boolean : ℕ → Bytes → Bool
unfolding equal
is_boolean c s =
    let size = suc (length s) in
    if size == 1
    then true
    else if (c == b't' || c == b'T') && not (size == 4)
    then false
    else if (c == b'f' || c == b'F') && not (size == 5)
    then false
    else if c == b't'
    then equal (c ∷ s) (codes "true")
    else if c == b'f'
    then equal (c ∷ s) (codes "false")
    else if c == b'T'
    then equal (c ∷ s) (codes "TRUE") || equal (c ∷ s) (codes "True")
    else if c == b'F'
    then equal (c ∷ s) (codes "FALSE") || equal (c ∷ s) (codes "False")
    else false

-- `scanBoolean` at a position with this byte.
unfoldable pub scan_boolean : ℕ → Bytes → Scanned
unfolding scan_word is_boolean
scan_boolean c s =
    if not (c == b't') && not (c == b'f') && not (c == b'T') && not (c == b'F')
    then stop_at (c ∷ s) false
    else let word = scan_word s in
      record word { block = c ∷ word.block; ok = is_boolean c word.block }
