-- ===== src/Points/TagMap/RoundTrip.antt =====
-- `parseTags` of misc/points.go reads back the tags of a key that `MakeKey` made.
use vgo.Prelude.{
  ℕ, suc, ◌≤◌, ◌<◌, Bytes, contains, equal, equal_iff, equal_self, Bool, true, false, ◌≡◌, refl, ap,
  sym, ◌∙◌, arith, List, [], ◌∷◌, ◌++◌, Option, none, some, length, length-append, if◌then◌else◌,
  Bool-cases, Option-cases, inl, inr,
}
use vgo.Prelude.Dict.{Dict, lookup, DistinctKeys, upserted}
use vgo.Prelude.Outcome.{returned}
use vgo.Points.Escape.{escape_tag, escape_measurement}
use vgo.Points.Escape.Tag.{unescape_tag-escape_tag}
use vgo.Points.Scan.{stop_at}
use vgo.Points.Key.{is_escape, scan_to}
use vgo.Points.TagMap.{
  escape_tags, sort_strings, value_or_empty, key_bytes, keys, hash_key, make_key, tags_behind,
  parse_tags,
}
use vgo.Points.TagMap.Sorted.{
  contains-sort_strings, contains-keys, is_some, lookup-escape_tags, escape_tags-Named,
}
use vgo.Points.TagMap.Escaped.{
  Plain, AllPlain, escape_measurement-cons, NoSlash, scan_to_name, unescape_measurement-NoSlash,
}
use vgo.Points.TagMap.Loop.{Held, AllHeld, found, Read, tags_text, loop_reads}

lookup-AllPlain :
    (j v : Bytes) (tags : Dict Bytes) → AllPlain tags → lookup j tags ≡ some v → Plain j v
unfolding lookup
lookup-AllPlain j v [] h e = cc
lookup-AllPlain j v ((k, w) ∷ tags) h e = elim (Bool-cases (equal k j)) [
  | inl same ↦
      let key_is : k ≡ j = (equal_iff k j).0 same in
      let value_is : w ≡ v = ground arith in rw (← key_is, ← value_is) h.0
  | inr other ↦ lookup-AllPlain j v tags h.1 (ground arith)
]

module _ (tags : Dict Bytes) (distinct : DistinctKeys tags) (all_plain : AllPlain tags) where
  abbrev escaped_tags : Dict Bytes
  escaped_tags = escape_tags tags []

  lookup-escaped :
      (j : Bytes)
      → lookup (escape_tag j) escaped_tags
        ≡ upserted (λ k v old. escape_tag v) j (lookup j tags) none
  unfolding lookup
  lookup-escaped j = lookup-escape_tags j tags [] distinct all_plain

  key-Held : (k : Bytes) → is_some (lookup k escaped_tags) ≡ true → Held escaped_tags k
  unfolding lookup
  key-Held k h = elim (escape_tags-Named k tags [] (inl refl)) [
    | inl absent ↦ (let no : true ≡ false = sym h ∙ ap is_some absent in absurd (ground arith))
    | inr (j, e) ↦ elim (Option-cases (lookup j tags)) [
      | inl missing ↦
          (let none_there : lookup k escaped_tags ≡ none = rw (e, lookup-escaped j, missing) refl in
            let no : true ≡ false = sym h ∙ ap is_some none_there in absurd (ground arith))
      | inr (v, here) ↦ record {
        name = j;
        value = v;
        is_plain = lookup-AllPlain j v tags all_plain here;
        key_is = e;
        value_is = rw (e, lookup-escaped j, here) refl;
      }
    ]
  ]

  all_Held :
      (ks : List Bytes)
      → ((k : Bytes) → contains ks k ≡ true → Held escaped_tags k)
      → AllHeld escaped_tags ks
  unfolding contains
  all_Held [] h = tt
  all_Held (k ∷ ks) h = (h k (rw (equal_self k) refl), all_Held ks λ j e. h j (ground arith))

  sorted-Held : AllHeld escaped_tags (sort_strings (keys escaped_tags))
  sorted-Held = all_Held (sort_strings (keys escaped_tags)) λ k e.
      key-Held k
        (sym (contains-keys escaped_tags k) ∙ sym (contains-sort_strings (keys escaped_tags) k) ∙ e)

  -- What is found for the sorted keys is what the tags hold.
  found-tags :
      (j : Bytes)
      → (if contains (sort_strings (keys escaped_tags)) (escape_tag j)
          then found escaped_tags j
          else lookup j [])
        ≡ lookup j tags
  unfolding lookup
  found-tags j = elim (Option-cases (lookup j tags)) [
    | inl missing ↦ rw (contains-sort_strings, contains-keys, lookup-escaped j, missing) refl
    | inr (v, here) ↦
        rw (contains-sort_strings, contains-keys, lookup-escaped j, here, unescape_tag-escape_tag)
          refl
  ]

length-key_bytes :
    (escaped : Dict Bytes) (ks : List Bytes) → length ks ≤ length (key_bytes escaped ks)
unfolding key_bytes
length-key_bytes escaped [] = omega arith
length-key_bytes escaped (k ∷ ks) =
    let v = value_or_empty (lookup k escaped) in
    omega (
      arith,
      length-append k (b'=' ∷ (v ++ key_bytes escaped ks)),
      length-append v (key_bytes escaped ks),
      length-key_bytes escaped ks,
    )

stops_after_name :
    (escaped : Dict Bytes) (ks : List Bytes) (p : Option ℕ)
    → is_escape p ≡ false
    → scan_to b',' p (key_bytes escaped ks) ≡ stop_at (key_bytes escaped ks) true
unfolding key_bytes scan_to
stops_after_name escaped [] p h = refl
stops_after_name escaped (k ∷ ks) p h = rw h refl

-- Behind a name that is not empty.
behind_reads :
    (escaped : Dict Bytes) (room : Bool) (name : Bytes) (ks : List Bytes)
    → 0 < length name
    → AllHeld escaped ks
    → Read escaped ks [] (tags_behind room name (key_bytes escaped ks))
unfolding contains key_bytes
behind_reads escaped room [] ks h held = absurd (omega arith)
behind_reads escaped room (c ∷ name) [] h held = record {
  tags = [];
  returns = refl;
  finds = λ j. refl;
}
behind_reads escaped room (c ∷ name) (k ∷ ks) h held =
    loop_reads escaped (suc (length (tags_text escaped k ks))) room k ks [] held.0 held.1
      (omega (arith, length-key_bytes escaped (k ∷ ks)))

length-escape_measurement : (name : Bytes) → 0 < length name → 0 < length (escape_measurement name)
length-escape_measurement [] h = absurd (omega arith)
length-escape_measurement (c ∷ name) h =
    let (d, t, e) = escape_measurement-cons c name in rw e (omega arith)

-- A key that MakeKey made of a name and tags is parsed back to these tags: parseTags returns a map
-- with the same value, or none, for every key. The name is not empty, and neither it nor a key or a
-- value has a backslash; no value is empty.
pub parse_tags-make_key :
    (room : Bool) (name : Bytes) (tags : Dict Bytes)
    → NoSlash name
    → 0 < length name
    → DistinctKeys tags
    → AllPlain tags
    → (read : Dict Bytes) × (parse_tags room (make_key name tags) ≡ returned read)
      × ((j : Bytes) → lookup j read ≡ lookup j tags)
unfolding parse_tags make_key hash_key
parse_tags-make_key room name tags plain_name named distinct all_plain =
    let e = escaped_tags tags distinct all_plain in
    let ks = sort_strings (keys e) in
    let r =
      behind_reads e room (escape_measurement name) ks (length-escape_measurement name named)
        (sorted-Held tags distinct all_plain) in
    (
      r.tags,
      rw
          (
            unescape_measurement-NoSlash name plain_name,
            scan_to_name none name (key_bytes e ks) plain_name refl (stops_after_name e ks),
          )
          r.returns,
      λ j. r.finds j ∙ found-tags tags distinct all_plain j,
    )
