-- ===== src/Points/TagMap.antt =====
-- misc/points.go: the map of a point's tags, `MakeKey`, `HashKey` and `parseTags`.
pub mod Ends
pub mod Escaped
pub mod RoundTrip
pub mod Loop
pub mod Sorted
use vgo.Prelude.{
  ℕ, zero, suc, Bytes, before, Bool, true, false, not, ◌&&◌, ◌==◌, ltb, List, [], ◌∷◌, ◌++◌, map,
  Option, none, some, length, if◌then◌else◌,
}
use vgo.Prelude.Dict.{Dict, lookup, insert}
use vgo.Prelude.Outcome.{Outcome, returned, panicked, out_of_fuel, then_call}
use vgo.Points.Escape.{escape_tag, unescape_tag, escape_measurement, unescape_measurement}
use vgo.Points.Scan.{Scanned, stop_at, past}
use vgo.Points.Key.{scan_to}

-- The first loop of `HashKey`: the escaped tags, without those of an empty value.
unfoldable pub escape_tags : Dict Bytes → Dict Bytes → Dict Bytes
escape_tags [] out = out
escape_tags ((k, v) ∷ tags) out =
    let ev = escape_tag v in
    escape_tags tags (if ltb 0 (length ev) then insert (escape_tag k) ev out else out)

-- `sort.Strings`.
unfoldable pub place_string : Bytes → List Bytes → List Bytes
place_string x [] = x ∷ []
place_string x (y ∷ ys) = if before y x then y ∷ place_string x ys else x ∷ y ∷ ys

unfoldable pub sort_strings : List Bytes → List Bytes
unfolding place_string
sort_strings [] = []
sort_strings (x ∷ xs) = place_string x (sort_strings xs)

-- `escaped[k]`.
abbrev pub value_or_empty : Option Bytes → Bytes
value_or_empty none = []
value_or_empty (some v) = v

-- The last loop of `HashKey`; the buffer is as long as this or longer.
unfoldable pub key_bytes : Dict Bytes → List Bytes → Bytes
key_bytes escaped [] = []
key_bytes escaped (k ∷ ks) =
    b',' ∷ (k ++ b'=' ∷ (value_or_empty (lookup k escaped) ++ key_bytes escaped ks))

abbrev pub keys {ℓ} : {V : Type ℓ} → Dict V → List Bytes
keys [] = []
keys ((k, v) ∷ m) = k ∷ keys m

unfoldable pub hash_key : Dict Bytes → Bytes
unfolding escape_tags sort_strings key_bytes
hash_key tags = let escaped = escape_tags tags [] in key_bytes escaped (sort_strings (keys escaped))

unfoldable pub make_key : (name : Bytes) → Dict Bytes → Bytes
unfolding hash_key
make_key name tags = escape_measurement (unescape_measurement name) ++ hash_key tags

-- `scanTagValue`, with the byte before the position.
unfoldable pub scan_tag_value : ℕ → Bytes → Scanned
scan_tag_value prev [] = stop_at [] true
scan_tag_value prev (c ∷ s) =
    if c == b',' && not (prev == b'\\') then stop_at (c ∷ s) true else past c (scan_tag_value c s)

-- A tag with its value behind an equals sign: the loop goes on, at the end of an empty value, and
-- one byte further otherwise.
abbrev pub add_value :
    (ℕ → Bytes → Dict Bytes → Outcome (Dict Bytes))
    → (key : Bytes) → (value rest : Bytes) → Dict Bytes
    → Outcome (Dict Bytes)
add_value loop key [] rest tags = loop b'=' rest tags
add_value loop key (c ∷ value) [] tags =
    returned (insert (unescape_tag key) (unescape_tag (c ∷ value)) tags)
add_value loop key (c ∷ value) (d ∷ rest) tags =
    loop d rest (insert (unescape_tag key) (unescape_tag (c ∷ value)) tags)

-- A round of the loop of `parseTags`, behind the scan of the key. Without an equals sign the value
-- is sliced one past the end, where there may be room in the buffer.
abbrev pub add_key :
    (ℕ → Bytes → Dict Bytes → Outcome (Dict Bytes))
    → (room : Bool) → (key rest : Bytes) → Dict Bytes
    → Outcome (Dict Bytes)
add_key loop room key [] tags = if room then returned tags else panicked
add_key loop room key (e ∷ rest) tags =
    let value = scan_tag_value e rest in add_value loop key value.block value.rest tags

unfoldable pub tags_loop :
    (fuel : ℕ) (room : Bool) → (prev : ℕ) → Bytes → Dict Bytes → Outcome (Dict Bytes)
unfolding scan_tag_value
tags_loop zero room prev s tags = out_of_fuel
tags_loop (suc fuel) room prev [] tags = returned tags
tags_loop (suc fuel) room prev (c ∷ s) tags =
    let key = scan_to b'=' (some prev) (c ∷ s) in
    add_key (tags_loop fuel room) room key.block key.rest tags

-- `parseTags`, behind the scan of the name.
abbrev pub tags_behind : (room : Bool) → (name rest : Bytes) → Outcome (Dict Bytes)
tags_behind room [] rest = returned []
tags_behind room (c ∷ name) [] = returned []
tags_behind room (c ∷ name) (d ∷ s) = tags_loop (suc (length s)) room d s []

-- `parseTags`; the flag says that the buffer has spare capacity.
unfoldable pub parse_tags : (room : Bool) → Bytes → Outcome (Dict Bytes)
unfolding tags_loop
parse_tags room buf = let name = scan_to b',' none buf in tags_behind room name.block name.rest
