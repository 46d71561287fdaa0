-- ===== src/Input/Text.antt =====
-- The text functions of Go's `strings` that the input plugins call, on bytes. Letters outside ASCII,
-- which `strings.ToLower` knows too, are left as they are.
use vgo.Prelude.{
  ℕ, ◌+◌, ◌-◌, ◌*◌, ◌^◌, ltb, Bytes, Bool, true, false, ◌&&◌, ◌||◌, List, [], ◌∷◌, ◌++◌, Option,
  none, some, leb, ◌==◌, if◌then◌else◌,
}

unfoldable pub to_lower : Bytes → Bytes
to_lower [] = []
to_lower (c ∷ s) = (if leb b'A' c && leb c b'Z' then c + 32 else c) ∷ to_lower s

-- `strings.Replace(s, old, new, -1)` for one byte each.
unfoldable pub replace_byte : ℕ → ℕ → Bytes → Bytes
replace_byte old new [] = []
replace_byte old new (c ∷ s) = (if c == old then new else c) ∷ replace_byte old new s

-- What is behind a prefix, where `strings.HasPrefix` holds.
unfoldable pub strip_prefix : Bytes → Bytes → Option Bytes
strip_prefix [] s = some s
strip_prefix (p ∷ prefix) [] = none
strip_prefix (p ∷ prefix) (c ∷ s) = if p == c then strip_prefix prefix s else none

abbrev pub is_found : Option Bytes → Bool
is_found none = false
is_found (some rest) = true

-- `strings.Contains`.
unfoldable pub holds_text : Bytes → Bytes → Bool
unfolding strip_prefix
holds_text [] part = is_found (strip_prefix part [])
holds_text (c ∷ s) part = is_found (strip_prefix part (c ∷ s)) || holds_text s part

-- `strings.Join(words, "_")`.
unfoldable pub join_words : List Bytes → Bytes
join_words [] = []
join_words (word ∷ []) = word
join_words (word ∷ next ∷ words) = word ++ b'_' ∷ join_words (next ∷ words)

-- `strings.TrimSpace` on ASCII.
unfoldable pub is_blank : ℕ → Bool
is_blank c = c == 32 || (leb 9 c && leb c 13)

unfoldable pub trim_left_space : Bytes → Bytes
unfolding is_blank
trim_left_space [] = []
trim_left_space (c ∷ s) = if is_blank c then trim_left_space s else c ∷ s

unfoldable pub put_unless_blank : ℕ → Bytes → Bytes
unfolding is_blank
put_unless_blank c [] = if is_blank c then [] else c ∷ []
put_unless_blank c (d ∷ s) = c ∷ d ∷ s

unfoldable pub trim_right_space : Bytes → Bytes
unfolding put_unless_blank
trim_right_space [] = []
trim_right_space (c ∷ s) = put_unless_blank c (trim_right_space s)

unfoldable pub trim_space : Bytes → Bytes
unfolding trim_left_space trim_right_space
trim_space s = trim_right_space (trim_left_space s)

-- `strings.SplitN(s, sep, 2)`: the two parts, if the separator is there.
unfoldable pub put_front : ℕ → Option (Bytes × Bytes) → Option (Bytes × Bytes)
put_front c none = none
put_front c (some (before, behind)) = some (c ∷ before, behind)

unfoldable pub cut : ℕ → Bytes → Option (Bytes × Bytes)
unfolding put_front
cut sep [] = none
cut sep (c ∷ s) = if c == sep then some ([], s) else put_front c (cut sep s)

-- `strings.Split(s, sep)`, for a separator of one byte: the first part, and the others.
unfoldable pub split_next : ℕ → ℕ → Bytes × List Bytes → Bytes × List Bytes
split_next sep c (part, parts) = if c == sep then ([], part ∷ parts) else (c ∷ part, parts)

unfoldable pub split_parts : ℕ → Bytes → Bytes × List Bytes
unfolding split_next
split_parts sep [] = ([], [])
split_parts sep (c ∷ s) = split_next sep c (split_parts sep s)

unfoldable pub split : ℕ → Bytes → List Bytes
unfolding split_parts
split sep s = (split_parts sep s).0 ∷ (split_parts sep s).1

-- The digits so far, and those before an invalid byte, leave uint64: strconv.ParseUint stops there
-- with its range error, whatever follows.
unfoldable pub overflows_uint64 : (read : ℕ) → Bytes → Bool
overflows_uint64 read [] = false
overflows_uint64 read (c ∷ s) =
    let now = read * 10 + (c - b'0') in
    let later = overflows_uint64 now s in
    if leb b'0' c && leb c b'9' then if ltb (2 ^ 64 - 1) now then true else later else false
