-- ===== src/Points/Tags/Ends.antt =====
-- `scanTags` and `scanKey` of misc/points.go end: each tag goes over at least one byte.
use vgo.Prelude.{
  ℕ, zero, suc, ◌-◌, ◌/◌, ◌⊎◌, ◌≤◌, ◌<◌, Bytes, true, false, ◌≡◌, refl, arith, List, [], ◌∷◌,
  Option, none, some, length, take, Bool-cases, Option-cases, inl, inr,
}
use vgo.Prelude.Outcome.{Ends, returned-Ends, panicked-Ends, if-Ends, then_call-Ends}
use vgo.Points.Scan.{skip_whitespace}
use vgo.Points.Key.{
  State, tag_key, fields, scan_to_space_or, scan_measurement, tag_key_loop, scan_tags_key,
  tag_value_loop, scan_tags_value,
}
use vgo.Points.Tags.{Tag, scan_tags, mirror_loop, place, key_of, scan_key, insertion_sort}

tag_key_loop-le : (prev : ℕ) (s : Bytes) → length (tag_key_loop prev s).rest ≤ length s
unfolding tag_key_loop
tag_key_loop-le prev [] = omega arith
tag_key_loop-le prev (c ∷ s) = ground (arith, tag_key_loop-le c s)

scan_tags_key-lt :
    (s : Bytes) → (scan_tags_key s).ok ≡ true → suc (length (scan_tags_key s).rest) ≤ length s
unfolding scan_tags_key
scan_tags_key-lt [] h = cc
scan_tags_key-lt (c ∷ s) h = ground (arith, tag_key_loop-le c s)

tag_value_loop-le : (prev : ℕ) (s : Bytes) → length (tag_value_loop prev s).rest ≤ length s
unfolding tag_value_loop
tag_value_loop-le prev [] = omega arith
tag_value_loop-le prev (c ∷ s) = ground (arith, tag_value_loop-le c s)

scan_tags_value-le : (s : Bytes) → length (scan_tags_value s).rest ≤ length s
unfolding scan_tags_value
scan_tags_value-le [] = omega arith
scan_tags_value-le (c ∷ s) = ground (arith, tag_value_loop-le c s)

next_cases : (o : Option State) → (o ≡ none) ⊎ ((o ≡ some tag_key) ⊎ (o ≡ some fields))
next_cases none = inl refl
next_cases (some tag_key) = inr (inl refl)
next_cases (some fields) = inr (inr refl)

scan_tags-Ends :
    (fuel size commas : ℕ) (s : Bytes) → length s < fuel → Ends (scan_tags fuel size commas s)
unfolding scan_tags
scan_tags-Ends zero size commas s h = absurd (omega arith)
scan_tags-Ends (suc fuel) size commas s h = elim (Bool-cases (scan_tags_key s).ok) [
  | inr bad ↦ rw bad (returned-Ends _)
  | inl good ↦
      let value = scan_tags_value (scan_tags_key s).rest in
      let key_lt = scan_tags_key-lt s good in
      let value_le = scan_tags_value-le (scan_tags_key s).rest in
      elim (next_cases value.next) [
        | inl failed ↦ rw (good, failed) (returned-Ends _)
        | inr (inl more) ↦
            rw (good, more)
              (then_call-Ends _ _ (scan_tags-Ends fuel _ (suc commas) value.rest (omega arith))
                λ t e. returned-Ends _)
        | inr (inr end) ↦ rw (good, end) (if-Ends _ (returned-Ends _) panicked-Ends)
      ]
]

place-Ends : (room : ℕ) (ts : List Tag) → Ends (place room ts)
unfolding place
place-Ends room [] = returned-Ends _
place-Ends zero (t ∷ ts) = panicked-Ends
place-Ends (suc room) (t ∷ ts) = elim (Option-cases (scan_to_space_or b',' t.from)) [
  | inl failed ↦ rw (failed, place) panicked-Ends
  | inr (v, found) ↦
      rw (found, place)
        (then_call-Ends _ _ (place-Ends (room - length (take room v)) ts) λ out e. returned-Ends _)
]

key_of-Ends :
    (text measurement rest : Bytes) (ts : List Tag) → Ends (key_of text measurement rest ts)
unfolding key_of
key_of-Ends text measurement rest ts = elim (Option-cases (mirror_loop (length ts / 2) 0 ts true)) [
  | inl duplicate ↦ rw (duplicate, key_of) (returned-Ends _)
  | inr (true, sorted) ↦ rw (sorted, key_of) (returned-Ends _)
  | inr (false, unsorted) ↦
      rw (unsorted, key_of)
        (then_call-Ends _ _ (place-Ends _ (insertion_sort ts)) λ out e. returned-Ends _)
]

measurement_Ends : (s : Bytes) → Ends (scan_measurement s)
unfolding scan_measurement
measurement_Ends [] = panicked-Ends
measurement_Ends (c ∷ s) = returned-Ends _

pub scan_key-Ends : (s : Bytes) → Ends (scan_key s)
unfolding scan_key
scan_key-Ends s = then_call-Ends _ _ (measurement_Ends (skip_whitespace s)) λ m e.
    elim (next_cases m.next) [
      | inl failed ↦ rw failed (returned-Ends _)
      | inr (inl tags) ↦ rw tags (
          then_call-Ends _ _ (scan_tags-Ends (suc (length m.rest)) 100 0 m.rest (omega arith))
            λ t e. if-Ends t.ok (key_of-Ends _ _ _ t.tags) (returned-Ends _))
      | inr (inr end) ↦ rw end (returned-Ends _)
    ]
