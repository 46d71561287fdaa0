-- ===== src/Input/Haproxy/Sent.antt =====
-- mecury/plugins/input/haproxy/haproxy.go with mecury/agent/accumulator.go: what is sent of a row of
-- HAProxy's statistics, whose uint64 fields the accumulator turns into int64 ones.
use vgo.Prelude.{
  ℕ, suc, ◌≡◌, refl, ap, sym, subst, ◌∙◌, Bytes, codes, Bool, true, false, List, [], ◌∷◌, Option,
  none, some, ltb, equal, if◌then◌else◌, get_elem?, ◌>>=◌,
}
use vgo.Prelude.Dict.{Dict, lookup, DistinctKeys, insert-DistinctKeys}
use vgo.Prelude.Int.{ℤ, pos}
use vgo.Agent.Filter.{GlobLibrary, should_fields_pass}
use vgo.Agent.Accumulator.{Value, uint64, int64, Accumulate, add_fields, clean}
use vgo.Agent.Accumulator.Fields.{add_fields-IsSent, sent_value}
use vgo.Input.Haproxy.{
  Measurement, import_row, gather_columns, put_field, parse_uint, name_of_column,
}
use vgo.Input.Haproxy.Columns.{columns}
use vgo.Input.Haproxy.Named.{import_row-IsNamed}

-- `fields[name] = ival`, an `interface{}` of a uint64.
unfoldable pub boxed : Dict ℕ → Dict Value
boxed [] = []
boxed ((name, n) ∷ fields) = (name, uint64 n) ∷ boxed fields

-- The call `acc.AddFields("haproxy", fields, tags, now)` for a row, if it has two columns.
module _ (lib : GlobLibrary) {Metric : Type 0}
    (new_point : Bytes → Dict Bytes → Dict Value → ℕ → Option Metric) (daemon : Dict Bytes) where
  unfoldable pub add_measurement : Accumulate lib → ℕ → Measurement → Option Metric
  unfolding boxed add_fields
  add_measurement ac now m =
      (add_fields lib new_point daemon ac (codes "haproxy") (boxed m.fields) m.tags (some now)
        now).1

-- The int64 that stands for a count: the count, or the largest int64.
abbrev pub capped : ℕ → ℤ
capped n = if ltb n 9223372036854775808 then pos n else pos 9223372036854775807

-- What is sent of a count, if its name passes the filter of the input.
abbrev pub sent_count : Bool → Option ℕ → Option Value
sent_count true (some n) = some (int64 (capped n))
sent_count _ _ = none

abbrev boxed_value : Option ℕ → Option Value
boxed_value none = none
boxed_value (some n) = some (uint64 n)

boxed_if :
    (b : Bool) (n : ℕ) (o : Option ℕ)
    → (if b then some (uint64 n) else boxed_value o) ≡ boxed_value (if b then some n else o)
boxed_if true n o = refl
boxed_if false n o = refl

lookup-boxed : (name : Bytes) (m : Dict ℕ) → lookup name (boxed m) ≡ boxed_value (lookup name m)
unfolding lookup boxed
lookup-boxed name [] = refl
lookup-boxed name ((key, n) ∷ m) =
    ap (λ o. if equal key name then some (uint64 n) else o) (lookup-boxed name m)
    ∙ boxed_if (equal key name) n (lookup name m)

boxed-DistinctKeys : (m : Dict ℕ) → DistinctKeys m → DistinctKeys (boxed m)
unfolding boxed
boxed-DistinctKeys [] d = tt
boxed-DistinctKeys ((key, n) ∷ m) d =
    (lookup-boxed key m ∙ ap boxed_value d.0, boxed-DistinctKeys m d.1)

capped_if :
    (b : Bool) (x y : ℤ)
    → (if b then some (int64 x) else some (int64 y)) ≡ some (int64 (if b then x else y))
capped_if true x y = refl
capped_if false x y = refl

sent-boxed_value :
    (pass : Bool) (o : Option ℕ) → sent_value pass (boxed_value o) ≡ sent_count pass o
unfolding clean
sent-boxed_value true none = refl
sent-boxed_value true (some n) = capped_if (ltb n 9223372036854775808) _ _
sent-boxed_value false none = refl
sent-boxed_value false (some n) = refl

put_field-DistinctKeys :
    (o : Option Bytes) (v : Option ℕ) (m : Dict ℕ) → DistinctKeys m → DistinctKeys (put_field o v m)
unfolding put_field
put_field-DistinctKeys none v m d = d
put_field-DistinctKeys (some name) none m d = d
put_field-DistinctKeys (some name) (some n) m d = insert-DistinctKeys name n m d

gather_columns-DistinctKeys :
    (field : ℕ) (row : List Bytes) (m : Dict ℕ)
    → DistinctKeys m
    → DistinctKeys (gather_columns field row m)
unfolding gather_columns
gather_columns-DistinctKeys field [] m d = d
gather_columns-DistinctKeys field (v ∷ row) m d =
    gather_columns-DistinctKeys (suc field) row _
      (put_field-DistinctKeys (name_of_column field columns) (parse_uint v) m d)

some_inj : {a b : Measurement} → some a ≡ some b → a ≡ b
some_inj e = cc

fields_or : Option Measurement → Dict ℕ
fields_or none = []
fields_or (some m) = m.fields

module _ (lib : GlobLibrary) {Metric : Type 0}
    (new_point : Bytes → Dict Bytes → Dict Value → ℕ → Option Metric) (daemon : Dict Bytes) where
  -- What `client.NewPoint` has made the sent metric of: the fields of the row, by name.
  pub record IsReported (ac : Accumulate lib) (row : List Bytes) (sent : Metric) : Type 0 where
    pub measurement : Bytes
    pub tags : Dict Bytes
    pub fields : Dict Value
    pub time : ℕ
    pub made : new_point measurement tags fields time ≡ some sent
    pub each :
        (name : Bytes)
        → lookup name fields
          ≡ sent_count
              (should_fields_pass lib ac.input_config.filter name)
              (lookup name columns >>= λ column. get_elem? row column >>= parse_uint)

  -- What the accumulator sends of a row of two columns or more has, of each name of the switch that the
  -- filter of the input lets pass, the number in the column of that name, but at most the largest
  -- int64, and no other field.
  pub add_measurement-IsReported :
      (ac : Accumulate lib) (now : ℕ) (host pxname svname : Bytes) (row : List Bytes)
      (m : Measurement) (sent : Metric)
      → import_row host (pxname ∷ svname ∷ row) ≡ some m
      → add_measurement lib new_point daemon ac now m ≡ some sent
      → IsReported ac (pxname ∷ svname ∷ row) sent
  unfolding add_measurement import_row fields_or
  add_measurement-IsReported ac now host pxname svname row m sent e h =
      let whole = pxname ∷ svname ∷ row in
      let (m', e', named) = import_row-IsNamed host pxname svname row in
      let same : m' ≡ m = some_inj (sym e' ∙ e) in
      let fields_same : gather_columns 0 whole [] ≡ m.fields = ap (λ o. fields_or o) e in
      let distinct =
        subst (λ f. DistinctKeys f) fields_same (gather_columns-DistinctKeys 0 whole [] tt) in
      let all =
        add_fields-IsSent lib new_point daemon ac (codes "haproxy") (boxed m.fields) m.tags
          (some now) now sent (boxed-DistinctKeys m.fields distinct) h in
      record {
        measurement = _;
        tags = _;
        fields = all.sent_fields;
        time = all.time;
        made = all.made;
        each = λ name.
            all.all_fields name
            ∙ ap (sent_value (should_fields_pass lib ac.input_config.filter name))
                (lookup-boxed name m.fields)
            ∙ sent-boxed_value _ (lookup name m.fields)
            ∙ ap (sent_count (should_fields_pass lib ac.input_config.filter name))
                (ap (λ x. lookup name x.fields) (sym same) ∙ named.named name);
      }
