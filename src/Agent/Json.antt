-- ===== src/Agent/Json.antt =====
-- agent/parser.go: `FlattenJSON` and the JSON parser. `json.Unmarshal` and `client.NewPoint`, which
-- NewMetric wraps, are parameters.

pub mod Paths
pub mod Parsed
use vgo.Prelude.{
  ℕ, zero, suc, Bytes, codes, equal, Bool, true, false, ◌&&◌, ◌==◌, List, [], ◌∷◌, ◌++◌, Option,
  none, some, if◌then◌else◌,
}
use vgo.Prelude.Decimal.{itoa}
use vgo.Prelude.Dict.{Dict, lookup, insert, insert_all}

-- What `encoding/json` decodes into an `interface{}`; a float64 is its bit pattern, and `other` is
-- any other dynamic type. The members of an object stand in the order of the map's iteration.
mutual
  pub data Json : Type 0 where
    object : Members → Json
    array : Elements → Json
    number : ℕ → Json
    text : Bytes → Json
    boolean : Bool → Json
    null other : Json

  pub data Members : Type 0 where
    no_members : Members
    member : Bytes → Json → Members → Members

  pub data Elements : Type 0 where
    no_elements : Elements
    element : Json → Elements → Elements

-- `strings.Trim(s, "_")`.
unfoldable pub trim_left : Bytes → Bytes
trim_left [] = []
trim_left (c ∷ s) = if c == b'_' then trim_left s else c ∷ s

abbrev pub trim_one : ℕ → Bytes → Bytes
trim_one c [] = if c == b'_' then [] else c ∷ []
trim_one c (d ∷ s) = c ∷ d ∷ s

unfoldable pub trim_right : Bytes → Bytes
trim_right [] = []
trim_right (c ∷ s) = trim_one c (trim_right s)

unfoldable pub trim : Bytes → Bytes
unfolding trim_left trim_right
trim s = trim_right (trim_left s)

-- The fields after a call of FlattenJSON, and whether it returned no error.
pub record Flat : Type 0 where
  pub fields : Dict ℕ
  pub ok : Bool

abbrev pub flattened : Dict ℕ → Flat
flattened fields = record { fields = fields; ok = true }

-- `fieldname+"_"+k+"_"`.
abbrev pub below : Bytes → Bytes → Bytes
below name k = name ++ b'_' ∷ (k ++ b'_' ∷ [])

-- `FlattenJSON`. An error inside an array ends the array, but is not returned.
unfoldable mutual
  pub flatten : Bytes → Json → Dict ℕ → Flat
  flatten name (Json.object ms) fields = flatten_members (trim name) ms fields
  flatten name (Json.array es) fields = flatten_elements (trim name) 0 es fields
  flatten name (Json.number x) fields = flattened (insert (trim name) x fields)
  flatten name Json.other fields = record { fields = fields; ok = false }
  flatten name _ fields = flattened fields

  pub flatten_members : Bytes → Members → Dict ℕ → Flat
  flatten_members name no_members fields = flattened fields
  flatten_members name (member k v ms) fields =
      let first = flatten (below name k) v fields in
      let more = flatten_members name ms first.fields in if first.ok then more else first

  pub flatten_elements : Bytes → (i : ℕ) → Elements → Dict ℕ → Flat
  flatten_elements name i no_elements fields = flattened fields
  flatten_elements name i (element v es) fields =
      let first = flatten (below name (itoa i)) v fields in
      let more = flatten_elements name (suc i) es first.fields in
      if first.ok then more else flattened first.fields

-- `jsonOut[tag]` and `delete(jsonOut, tag)`.
unfoldable pub member_of : Bytes → Members → Option Json
member_of tag no_members = none
member_of tag (member k v ms) = if equal k tag then some v else member_of tag ms

unfoldable pub delete_member : Bytes → Members → Members
delete_member tag no_members = no_members
delete_member tag (member k v ms) =
    let rest = delete_member tag ms in if equal k tag then rest else member k v rest

abbrev pub add_tag : Bytes → Option Json → Dict Bytes → Dict Bytes
add_tag tag (some (Json.text v)) tags = insert tag v tags
add_tag tag _ tags = tags

-- The loop over the tag keys: the tags, and what is left of the object.
unfoldable pub take_tags : List Bytes → Dict Bytes → Members → Dict Bytes × Members
unfolding member_of delete_member
take_tags [] tags ms = (tags, ms)
take_tags (tag ∷ more) tags ms =
    take_tags more (add_tag tag (member_of tag ms) tags) (delete_member tag ms)

pub record JsonParser : Type 0 where
  pub metric_name : Bytes
  pub tag_keys : List Bytes
  pub default_tags : Dict Bytes

module _ {Metric : Type 0} (unmarshal : Bytes → Option Members)
    (new_metric : Bytes → Dict Bytes → Dict ℕ → (time : ℕ) → Option Metric) where
  -- The metric of the flattened fields, unless there was an error.
  unfoldable pub metric_of : JsonParser → Dict Bytes → (now : ℕ) → Flat → Option (List Metric)
  metric_of p tags now f =
      if f.ok
      then elim (new_metric p.metric_name tags f.fields now) [
        | none ↦ none
        | some m ↦ some (m ∷ [])
      ]
      else none

  unfoldable pub parse_out : JsonParser → (now : ℕ) → Option Members → Option (List Metric)
  unfolding insert_all take_tags flatten metric_of
  parse_out p now none = none
  parse_out p now (some out) =
      let taken = take_tags p.tag_keys (insert_all p.default_tags []) out in
      metric_of p taken.0 now (flatten [] (Json.object taken.1) [])

  -- `JSONParser.Parse`: the metrics, or an error.
  unfoldable pub parse : JsonParser → Bytes → (now : ℕ) → Option (List Metric)
  unfolding parse_out
  parse p buf now = parse_out p now (unmarshal buf)

  -- `JSONParser.ParseLine`.
  unfoldable pub parse_line : JsonParser → Bytes → (now : ℕ) → Option Metric
  unfolding parse
  parse_line p line now = elim (parse p (line ++ 10 ∷ []) now) [
    | none ↦ none
    | some [] ↦ none
    | some (m ∷ ms) ↦ some m
  ]
