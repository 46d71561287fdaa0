-- ===== src/Points/TagMap/Sorted.antt =====
-- What the map of escaped tags in `HashKey` of misc/points.go holds, and its sorted keys.
use vgo.Prelude.{
  ◌<◌, Bytes, contains, equal, equal_iff, Bool, true, false, ◌||◌, ◌⊎◌, both-if, ltb, ◌≡◌, refl, ap,
  sym, ◌∙◌, arith, List, [], ◌∷◌, Option, none, some, length, Bool-cases, inl, inr,
}
use vgo.Prelude.Dict.{Dict, lookup, insert, lookup-insert, DistinctKeys, upserted}
use vgo.Points.Escape.{escape_tag}
use vgo.Points.TagMap.{escape_tags, place_string, sort_strings, keys}
use vgo.Points.TagMap.Escaped.{AllPlain, escape_tag-cons, equal-escape_tag}

contains-place_string :
    (x s : Bytes) (ys : List Bytes) → contains (place_string x ys) s ≡ (equal x s || contains ys s)
unfolding place_string contains
contains-place_string x s [] = refl
contains-place_string x s (y ∷ ys) = ground (arith, contains-place_string x s ys)

pub contains-sort_strings :
    (xs : List Bytes) (s : Bytes) → contains (sort_strings xs) s ≡ contains xs s
unfolding sort_strings contains
contains-sort_strings [] s = refl
contains-sort_strings (x ∷ xs) s =
    contains-place_string x s (sort_strings xs)
    ∙ ap (λ b. equal x s || b) (contains-sort_strings xs s)

abbrev pub is_some {ℓ} : {A : Type ℓ} → Option A → Bool
is_some none = false
is_some (some a) = true

pub contains-keys {ℓ} :
    {V : Type ℓ} (m : Dict V) (k : Bytes) → contains (keys m) k ≡ is_some (lookup k m)
unfolding contains lookup
contains-keys [] k = refl
contains-keys ((j, v) ∷ m) k = ground (arith, contains-keys m k)

-- The text of a value that is not empty is put into the map.
escape_one : (v : Bytes) → 0 < length v → ltb 0 (length (escape_tag v)) ≡ true
escape_one [] h = absurd (omega arith)
escape_one (c ∷ v) h = let (d, t, e) = escape_tag-cons c v in rw e (ground arith)

-- An escaped key is looked up as the key itself is looked up in the tags.
pub lookup-escape_tags :
    (j : Bytes) (tags out : Dict Bytes)
    → DistinctKeys tags
    → AllPlain tags
    → lookup (escape_tag j) (escape_tags tags out)
      ≡ upserted (λ k v old. escape_tag v) j (lookup j tags) (lookup (escape_tag j) out)
unfolding escape_tags lookup
lookup-escape_tags j [] out d h = refl
lookup-escape_tags j ((k, v) ∷ tags) out d h = elim (Bool-cases (equal k j)) [
  | inl same ↦
      let e = (equal_iff k j).0 same in
      rw
        (
          escape_one v h.0.has_value,
          lookup-escape_tags j tags _ d.1 h.1,
          lookup-insert,
          equal-escape_tag k j,
          same,
          ← e,
          d.0,
        )
        refl
  | inr other ↦
      rw
        (
          escape_one v h.0.has_value,
          lookup-escape_tags j tags _ d.1 h.1,
          lookup-insert,
          equal-escape_tag k j,
          other,
        )
        refl
]

abbrev pub Named : Bytes → Type 0
Named k = (j : Bytes) × (k ≡ escape_tag j)

Named-insert :
    (i k v : Bytes) (out : Dict Bytes)
    → (lookup k out ≡ none) ⊎ Named k
    → (lookup k (insert (escape_tag i) v out) ≡ none) ⊎ Named k
Named-insert i k v out h = elim (Bool-cases (equal (escape_tag i) k)) [
  | inl same ↦ inr (i, sym ((equal_iff (escape_tag i) k).0 same))
  | inr other ↦ elim h [
    | inl absent ↦ inl (rw (lookup-insert, other) absent)
    | inr named ↦ inr named
  ]
]

-- Every key of the map is an escaped key.
pub escape_tags-Named :
    (k : Bytes) (tags out : Dict Bytes)
    → (lookup k out ≡ none) ⊎ Named k
    → (lookup k (escape_tags tags out) ≡ none) ⊎ Named k
unfolding escape_tags
escape_tags-Named k [] out h = h
escape_tags-Named k ((i, v) ∷ tags) out h = escape_tags-Named k tags _ (
    both-if (λ (m : Dict Bytes). (lookup k m ≡ none) ⊎ Named k) (ltb 0 (length (escape_tag v)))
      (Named-insert i k (escape_tag v) out h) h)
