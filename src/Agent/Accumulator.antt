-- ===== src/Agent/Accumulator.antt =====
-- agent/accumulator.go: what happens to a gathered measurement on its way to the flusher.
-- `client.NewPoint` (vendor/github.com/influxdata) is a parameter: what NewMetric wraps. A time is
-- a number of nanoseconds since Go's zero time, from which `Round` counts.
pub mod Fields
use vgo.Prelude.{
  ℕ, ◌+◌, ◌-◌, ◌*◌, ◌/◌, ◌%◌, ◌^◌, Bytes, codes, Bool, true, false, not, ◌&&◌, ◌||◌, ◌==◌, List, [],
  ◌∷◌, ◌++◌, Option, none, some, leb, ltb, if◌then◌else◌,
}
use vgo.Prelude.Dict.{Dict, lookup, insert, upsert_all}
use vgo.Prelude.Int.{ℤ, pos, negsuc, leb_ℤ}
use vgo.Agent.Filter.{GlobLibrary, InputFilter, should_tags_pass, should_fields_pass}

-- The values that plugins put into fields: an `interface{}` by its dynamic type. A float64 is its
-- bit pattern; `other` is any type that the code only hands on.
pub data Value : Type 0 where
  uint64 : ℕ → Value
  float64 : ℕ → Value
  int64 : ℤ → Value
  text : Bytes → Value
  boolean : Bool → Value
  other : ℕ → Value

-- `math.IsNaN(val) || math.IsInf(val, 0)`: the exponent bits are all ones.
unfoldable pub is_nan : ℕ → Bool
is_nan bits = (bits / 2 ^ 52) % 2 ^ 11 == 2047 && not (bits % 2 ^ 52 == 0)

unfoldable pub is_inf : ℕ → Bool
is_inf bits = (bits / 2 ^ 52) % 2 ^ 11 == 2047 && bits % 2 ^ 52 == 0

-- `timestamp.Round(d)` of the standard library: to the nearest multiple, halves up.
unfoldable pub round : ℕ → ℕ → ℕ
round t d = if d == 0 then t else if ltb (t % d + t % d) d then t - t % d else t + (d - t % d)

abbrev pub second : ℕ
second = 1000000000

abbrev pub millisecond : ℕ
millisecond = 1000000

abbrev pub microsecond : ℕ
microsecond = 1000

abbrev pub nanosecond : ℕ
nanosecond = 1

-- `SetPrecision(interval)`.
unfoldable pub precision_of : ℤ → ℕ
precision_of interval =
    if leb_ℤ (pos second) interval
    then second
    else if leb_ℤ (pos millisecond) interval
    then millisecond
    else if leb_ℤ (pos microsecond) interval
    then microsecond
    else nanosecond

-- The value that is sent for a field, if any: the switch of AddFields.
unfoldable pub clean : Value → Option Value
unfolding is_nan is_inf
clean (uint64 n) =
    if ltb n 9223372036854775808
    then some (int64 (pos n))
    else some (int64 (pos 9223372036854775807))
clean (float64 bits) = if is_nan bits || is_inf bits then none else some (float64 bits)
clean v = some v

-- `if _, ok := tags[k]; !ok { tags[k] = v }`.
unfoldable pub keep : Bytes → Bytes → Option Bytes → Bytes
keep k v none = v
keep k v (some old) = old

module _ (lib : GlobLibrary) where
  pub record InputConfig : Type 0 where
    pub name : Bytes
    pub prefix : Bytes
    pub suffix : Bytes
    pub tags : Dict Bytes
    pub filter : InputFilter lib

  pub record Accumulate : Type 0 where
    pub input_config : InputConfig
    pub precision : ℕ

  -- `NewAccumulate` leaves the precision at zero.
  unfoldable pub new_accumulate : InputConfig → Accumulate
  new_accumulate c = record { input_config = c; precision = 0 }

  unfoldable pub set_precision : Accumulate → ℤ → Accumulate
  unfolding precision_of
  set_precision ac interval = record ac { precision = precision_of interval }

  unfoldable pub disable_precision : Accumulate → Accumulate
  disable_precision ac = record ac { precision = nanosecond }

  -- The loop over the fields, into `result`.
  unfoldable pub clean_all : InputFilter lib → Dict Value → Dict Value → Dict Value
  unfolding clean
  clean_all f [] result = result
  clean_all f ((k, v) ∷ fields) result = clean_all f fields (
      if should_fields_pass lib f k
      then elim (clean v) [ none ↦ result | some w ↦ insert k w result ]
      else result)

  module _ {Metric : Type 0} (new_point : Bytes → Dict Bytes → Dict Value → ℕ → Option Metric)
      (daemon_tags : Dict Bytes) where
    -- The end of AddFields, for a result that is not empty.
    unfoldable pub emit : Accumulate → Bytes → Dict Bytes → Dict Value → ℕ → Option Metric
    unfolding round
    emit ac measurement tags [] t = none
    emit ac measurement tags (f ∷ fs) t = new_point measurement tags (f ∷ fs) (round t ac.precision)

    -- The plugin-wide tags, then the daemon-wide ones, where the measurement has none.
    unfoldable pub add_tags : InputConfig → Dict Bytes → Dict Bytes
    unfolding keep
    add_tags c tags = upsert_all keep daemon_tags (upsert_all keep c.tags tags)

    -- `AddFields`: the caller's tag map, which the code writes to, and what is sent on the channel.
    -- `t` is the given timestamp or `now`.
    unfoldable pub add_fields :
        Accumulate → Bytes → Dict Value → Dict Bytes → Option ℕ → ℕ → Dict Bytes × Option Metric
    unfolding emit add_tags clean_all
    add_fields ac [] fields tags t now = (tags, none)
    add_fields ac (c ∷ cs) [] tags t now = (tags, none)
    add_fields ac (c ∷ cs) (f ∷ fs) tags t now =
        let config = ac.input_config in
        let measurement = config.prefix ++ (c ∷ cs) ++ config.suffix in
        let tags' = add_tags config tags in
        let time : ℕ = elim t [ none ↦ now | some given ↦ given ] in
        if should_tags_pass lib config.filter tags'
        then (tags', emit ac measurement tags' (clean_all config.filter (f ∷ fs) []) time)
        else (tags', none)

    -- `Add`: one field named "value".
    unfoldable pub add :
        Accumulate → Bytes → Value → Dict Bytes → Option ℕ → ℕ → Dict Bytes × Option Metric
    unfolding add_fields
    add ac measurement v tags t now = add_fields ac measurement ((codes "value", v) ∷ []) tags t now
