-- ===== src/Agent/Tests/Documents.antt =====
-- Runs of the JSON parser on a concrete document, and the theorems at it. A metric is its parts.
use vgo.Prelude.{
  ℕ, Bytes, codes, contains, equal, ◌≡◌, refl, [], ◌∷◌, Option, none, some, if◌then◌else◌,
}
use vgo.Prelude.Decimal.{itoa}
use vgo.Prelude.Dict.{Dict, lookup, insert, insert_all}
use vgo.Agent.Json.{
  Json, Members, no_members, member, no_elements, element, flatten, flattened, trim, member_of,
  JsonParser, parse,
}
use vgo.Agent.Json.Paths.{MembersClean, IsClean, leaves_members, flatten-leaves}
use vgo.Agent.Json.Parsed.{tag_value, parse-Parsed}

-- {"a": {"b": [1, "x", 2]}, "host": "h1"}, with numbers for the bit patterns.
abbrev document : Members
document =
    member (codes "a")
      (Json.object (
        member (codes "b")
          (Json.array (
            element (Json.number 1)
              (element (Json.text (codes "x")) (element (Json.number 2) no_elements))))
          no_members))
      (member (codes "host") (Json.text (codes "h1")) no_members)

document-MembersClean : MembersClean document
unfolding IsClean
document-MembersClean =
    ((refl, refl), ((refl, refl), (tt, (tt, (tt, tt))), tt), ((refl, refl), tt, tt))

flatten_run :
    flatten [] (Json.object document) [] ≡ flattened ((codes "a_b_0", 1) ∷ (codes "a_b_2", 2) ∷ [])
unfolding flatten trim itoa insert equal
flatten_run = refl

flatten-leaves_example :
    flatten [] (Json.object document) [] ≡ flattened (insert_all (leaves_members [] document) [])
flatten-leaves_example = flatten-leaves document document-MembersClean

abbrev Metric : Type 0
Metric = Bytes × Dict Bytes × Dict ℕ × ℕ

abbrev unmarshal : Bytes → Option Members
unmarshal buf = some document

abbrev new_metric : Bytes → Dict Bytes → Dict ℕ → ℕ → Option Metric
new_metric name tags fields time = some (name, tags, fields, time)

abbrev parser : JsonParser
parser = record {
  metric_name = codes "m";
  tag_keys = codes "host" ∷ [];
  default_tags = (codes "dc", codes "1") ∷ [];
}

parse_run :
    parse unmarshal new_metric parser (codes "{}") 7
    ≡ some (
        (
          codes "m",
          (codes "dc", codes "1") ∷ (codes "host", codes "h1") ∷ [],
          (codes "a_b_0", 1) ∷ (codes "a_b_2", 2) ∷ [],
          7,
        )
        ∷ [])
unfolding parse flatten trim itoa insert equal
parse_run = refl

parse-Parsed_example :
    (tags : Dict Bytes) × (left : Members) × (parse unmarshal new_metric parser (codes "{}") 7
      ≡ some ((codes "m", tags, insert_all (leaves_members [] left) [], 7) ∷ []))
    × ((j : Bytes)
        → lookup j tags ≡ (
            if contains (codes "host" ∷ []) j
            then tag_value (member_of j document) (lookup j parser.default_tags)
            else lookup j parser.default_tags))
    × ((j : Bytes)
        → member_of j left
          ≡ (if contains (codes "host" ∷ []) j then none else member_of j document))
unfolding lookup
parse-Parsed_example =
    parse-Parsed unmarshal new_metric parser (codes "{}") 7 document refl document-MembersClean
      (refl, tt)
