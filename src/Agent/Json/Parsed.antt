-- ===== src/Agent/Json/Parsed.antt =====
-- What the JSON parser of agent/parser.go makes a metric of.
use vgo.Prelude.{
  ℕ, Bytes, contains, equal, equal_iff, Bool, true, false, ◌≡◌, refl, ap, sym, ◌∙◌, arith, List, [],
  ◌∷◌, Option, none, some, if◌then◌else◌, both-if, Bool-cases, inl, inr,
}
use vgo.Prelude.Dict.{
  Dict, lookup, insert_all, first_some, lookup-insert, lookup-insert_all, DistinctKeys,
}
use vgo.Agent.Json.{
  Json, Members, no_members, member, member_of, delete_member, add_tag, take_tags, JsonParser,
  parse, parse_out, metric_of,
}
use vgo.Agent.Json.Paths.{MembersClean, leaves_members, flatten-leaves, IsClean}

-- The text that a tag key has in the document, or else what it had before.
abbrev pub tag_value : Option Json → Option Bytes → Option Bytes
tag_value (some (Json.text v)) old = some v
tag_value _ old = old

member_of-delete :
    (tag j : Bytes) (ms : Members)
    → member_of j (delete_member tag ms) ≡ (if equal tag j then none else member_of j ms)
unfolding member_of delete_member
member_of-delete tag j no_members = ground arith
member_of-delete tag j (member k v ms) =
    ground (arith, equal_iff k tag, equal_iff k j, equal_iff tag j, member_of-delete tag j ms)

delete_member-clean :
    (tag : Bytes) (ms : Members) → MembersClean ms → MembersClean (delete_member tag ms)
unfolding delete_member IsClean
delete_member-clean tag no_members h = tt
delete_member-clean tag (member k v ms) h =
    let rest = delete_member-clean tag ms h.2 in
    both-if MembersClean (equal k tag) rest (h.0, h.1, rest)

if_same {ℓ} : {A : Type ℓ} (b : Bool) (x : A) → (if b then x else x) ≡ x
if_same true x = refl
if_same false x = refl

lookup-add_tag :
    (tag j : Bytes) (v : Option Json) (tags : Dict Bytes)
    → lookup j (add_tag tag v tags)
      ≡ (if equal tag j then tag_value v (lookup j tags) else lookup j tags)
lookup-add_tag tag j (some (Json.text s)) tags = lookup-insert tag j s tags
lookup-add_tag tag j none tags = sym (if_same (equal tag j) (lookup j tags))
lookup-add_tag tag j (some (Json.object ms)) tags = sym (if_same (equal tag j) (lookup j tags))
lookup-add_tag tag j (some (Json.array es)) tags = sym (if_same (equal tag j) (lookup j tags))
lookup-add_tag tag j (some (Json.number x)) tags = sym (if_same (equal tag j) (lookup j tags))
lookup-add_tag tag j (some (Json.boolean b)) tags = sym (if_same (equal tag j) (lookup j tags))
lookup-add_tag tag j (some Json.null) tags = sym (if_same (equal tag j) (lookup j tags))
lookup-add_tag tag j (some Json.other) tags = sym (if_same (equal tag j) (lookup j tags))

lookup-defaults :
    (j : Bytes) (m : Dict Bytes) → DistinctKeys m → lookup j (insert_all m []) ≡ lookup j m
unfolding lookup
lookup-defaults j m d = lookup-insert_all j m [] d ∙ last (lookup j m)
  where
    last : (o : Option Bytes) → first_some o (lookup j []) ≡ o
    last none = refl
    last (some v) = refl

-- Each tag key is taken once: later ones find nothing.
take_tags-tags :
    (j : Bytes) (ks : List Bytes) (tags : Dict Bytes) (ms : Members)
    → lookup j (take_tags ks tags ms).0
      ≡ (if contains ks j then tag_value (member_of j ms) (lookup j tags) else lookup j tags)
unfolding take_tags contains
take_tags-tags j [] tags ms = refl
take_tags-tags j (k ∷ ks) tags ms = elim (Bool-cases (equal k j)) [
  | inl same ↦
      let e = (equal_iff k j).0 same in
      rw (take_tags-tags j ks, member_of-delete, lookup-add_tag, same, if_same (contains ks j), ← e)
        refl
  | inr other ↦ rw (take_tags-tags j ks, member_of-delete, lookup-add_tag, other) refl
]

take_tags-left :
    (j : Bytes) (ks : List Bytes) (tags : Dict Bytes) (ms : Members)
    → member_of j (take_tags ks tags ms).1 ≡ (if contains ks j then none else member_of j ms)
unfolding take_tags contains
take_tags-left j [] tags ms = refl
take_tags-left j (k ∷ ks) tags ms = elim (Bool-cases (equal k j)) [
  | inl same ↦ rw (take_tags-left j ks, member_of-delete, same, if_same (contains ks j)) refl
  | inr other ↦ rw (take_tags-left j ks, member_of-delete, other) refl
]

take_tags-clean :
    (ks : List Bytes) (tags : Dict Bytes) (ms : Members)
    → MembersClean ms
    → MembersClean (take_tags ks tags ms).1
unfolding take_tags
take_tags-clean [] tags ms h = h
take_tags-clean (k ∷ ks) tags ms h = take_tags-clean ks _ _ (delete_member-clean k ms h)

module _ {Metric : Type 0} (unmarshal : Bytes → Option Members)
    (new_metric : Bytes → Dict Bytes → Dict ℕ → (time : ℕ) → Option Metric) where
  -- The JSON parser on a text that is decoded to an object with clean keys makes one metric of the
  -- object's numbers, each under its path, and of tags, or fails as NewMetric does. A tag key that
  -- is a text in the object has this text as its tag, and is no member any more; else a tag has its
  -- default, if any.
  pub parse-Parsed :
      (p : JsonParser) (buf : Bytes) (now : ℕ) (doc : Members)
      → unmarshal buf ≡ some doc
      → MembersClean doc
      → DistinctKeys p.default_tags
      → (tags : Dict Bytes) × (left : Members) × (parse unmarshal new_metric p buf now
          ≡ elim (new_metric p.metric_name tags (insert_all (leaves_members [] left) []) now) [
            | none ↦ none
            | some m ↦ some (m ∷ [])
          ])
        × ((j : Bytes)
            → lookup j tags ≡ (
                if contains p.tag_keys j
                then tag_value (member_of j doc) (lookup j p.default_tags)
                else lookup j p.default_tags))
        × ((j : Bytes)
            → member_of j left ≡ (if contains p.tag_keys j then none else member_of j doc))
  unfolding parse parse_out metric_of
  parse-Parsed p buf now doc decoded clean distinct =
      let defaults = insert_all p.default_tags [] in
      let taken = take_tags p.tag_keys defaults doc in
      (
        taken.0,
        taken.1,
        ap (parse_out unmarshal new_metric p now) decoded
            ∙ ap (metric_of unmarshal new_metric p taken.0 now)
                (flatten-leaves taken.1 (take_tags-clean p.tag_keys defaults doc clean)),
        λ j.
            take_tags-tags j p.tag_keys defaults doc
            ∙ ap (λ old. if contains p.tag_keys j then tag_value (member_of j doc) old else old)
                (lookup-defaults j p.default_tags distinct),
        λ j. take_tags-left j p.tag_keys defaults doc,
      )
