-- ===== src/Points/Tags.antt =====
-- misc/points.go: the tags in `scanTags` and `scanKey`, which sorts them.
pub mod Ends
pub mod Limit
pub mod Plain
pub mod Rounds
use vgo.Prelude.{
  ℕ, zero, suc, ◌+◌, ◌-◌, ◌*◌, ◌/◌, Bytes, equal, before, Bool, true, false, not, ◌&&◌, ◌||◌, ◌==◌,
  ltb, leb, List, [], ◌∷◌, ◌++◌, Option, none, some, length, take, get_or, replicate, if◌then◌else◌,
}
use mathlib.Core.List.{reverse}
use vgo.Prelude.Outcome.{Outcome, returned, panicked, out_of_fuel, then_call}
use vgo.Points.Scan.{Scanned, skip_whitespace}
use vgo.Points.Key.{
  State, tag_key, fields, Step, scan_to, scan_to_space_or, scan_measurement, scan_tags_key,
  scan_tags_value,
}

-- A tag of `indices`: its text, up to one byte before the next index, and the buffer from its start.
pub record Tag : Type 0 where
  pub text : Bytes
  pub from : Bytes

-- What `scanTags` returns: the bytes that it went over and those after, the tags, and whether there
-- was no error.
pub record Tags : Type 0 where
  pub taken : Bytes
  pub rest : Bytes
  pub tags : List Tag
  pub ok : Bool

abbrev pub tags_failed : Bytes → Bytes → Tags
tags_failed taken rest = record { taken = taken; rest = rest; tags = []; ok = false }

abbrev pub but_last : Bytes → Bytes
but_last s = take (length s - 1) s

abbrev pub add_tag : Bytes → Tag → Tags → Tags
add_tag taken tag more = record more { taken = taken ++ more.taken; tags = tag ∷ more.tags }

-- A round of `scanTags`, behind the scans of a tag's key and value. `size` is the length of
-- `indices`, which is doubled for a key, and not for the end of the last tag.
abbrev pub tags_after :
    ((size commas : ℕ) → Bytes → Outcome Tags)
    → (size commas : ℕ) → Bytes
    → Scanned
    → Step
    → Outcome Tags
tags_after loop size commas s key value =
    let grown = if leb size commas then size * 2 else size in
    let taken = key.block ++ value.taken in
    if not key.ok then returned (tags_failed key.block key.rest) else elim value.next [
      | none ↦ returned (tags_failed taken value.rest)
      | some tag_key ↦
          then_call (loop grown (suc commas) value.rest)
            λ more. returned (add_tag taken (record { text = but_last taken; from = s }) more)
      | some fields ↦
          if ltb (suc commas) grown
          then returned (
              add_tag taken (record { text = taken; from = s })
                (record { taken = []; rest = value.rest; tags = []; ok = true }))
          else panicked
    ]

unfoldable pub scan_tags : (fuel size commas : ℕ) → Bytes → Outcome Tags
scan_tags zero size commas s = out_of_fuel
scan_tags (suc fuel) size commas s =
    let key = scan_tags_key s in
    tags_after (scan_tags fuel) size commas s key (scan_tags_value key.rest)

abbrev pub tag_at : List Tag → ℕ → Tag
tag_at tags j = get_or tags j (record { text = []; from = [] })

-- The name of a tag, in its own text.
unfoldable pub name_of : Tag → Bytes
name_of t = (scan_to b'=' none t.text).block

-- The loop over the first half of the tags: `none` for duplicate tags, else whether they are sorted.
unfoldable pub mirror_loop : (rounds j : ℕ) → List Tag → (sorted : Bool) → Option Bool
mirror_loop zero j tags sorted = some sorted
mirror_loop (suc rounds) j tags sorted =
    let left = name_of (tag_at tags j) in
    let right = name_of (tag_at tags (length tags - j - 1)) in
    let more = mirror_loop rounds (suc j) tags (if before right left then false else sorted) in
    if equal left right then none else more

-- `less`, which reads the names in the buffer, where a comma stands before each.
unfoldable pub less : Tag → Tag → Bool
less a b = before (scan_to b'=' (some b',') a.from).block (scan_to b'=' (some b',') b.from).block

-- The inner loop of `insertionSort`: the tag moves left while it is less than its neighbour. The
-- tags to its left are listed from right to left.
unfoldable pub sift : Tag → List Tag → List Tag
sift x [] = x ∷ []
sift x (y ∷ ys) = if less x y then y ∷ sift x ys else x ∷ y ∷ ys

unfoldable pub insert_rest : List Tag → List Tag → List Tag
insert_rest done [] = done
insert_rest done (x ∷ xs) = insert_rest (sift x done) xs

unfoldable pub insertion_sort : List Tag → List Tag
insertion_sort tags = reverse (insert_rest [] tags)

-- The tags are copied to the bytes left of the new key.
unfoldable pub place : (room : ℕ) → List Tag → Outcome Bytes
place room [] = returned (replicate room 0)
place zero (t ∷ ts) = panicked
place (suc room) (t ∷ ts) = elim (scan_to_space_or b',' t.from) [
  | none ↦ panicked
  | some v ↦
      let copied = take room v in
      then_call (place (room - length copied) ts) λ out. returned (b',' ∷ copied ++ out)
]

pub record Key : Type 0 where
  pub key : Bytes
  pub rest : Bytes
  pub ok : Bool

-- What `scanKey` does when it has the tags, with the text of the key and the measurement in it.
unfoldable pub key_of : (text measurement rest : Bytes) → List Tag → Outcome Key
key_of text measurement rest tags = elim (mirror_loop (length tags / 2) 0 tags true) [
  | none ↦ returned (record { key = text; rest = rest; ok = false })
  | some true ↦ returned (record { key = text; rest = rest; ok = true })
  | some false ↦
      let name = take (length text) measurement in
      then_call (place (length text - length name) (insertion_sort tags))
        λ out. returned (record { key = name ++ out; rest = rest; ok = true })
]

unfoldable pub scan_key : Bytes → Outcome Key
scan_key buf = then_call (scan_measurement (skip_whitespace buf)) λ m. elim m.next [
  | none ↦ returned (record { key = m.taken; rest = m.rest; ok = false })
  | some fields ↦ returned (record { key = m.taken; rest = m.rest; ok = true })
  | some tag_key ↦ then_call (scan_tags (suc (length m.rest)) 100 0 m.rest) λ t.
      if t.ok
      then key_of (m.taken ++ t.taken) (but_last m.taken) t.rest t.tags
      else returned (record { key = m.taken ++ t.taken; rest = t.rest; ok = false })
]
