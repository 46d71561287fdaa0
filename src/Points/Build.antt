-- ===== src/Points/Build.antt =====
-- misc/points.go: `NewPoint`, and the tags and fields of a point. The zero time is Go's, the first
-- moment of the year 1; a time is a number of nanoseconds since the epoch.
pub mod ReadBack
use vgo.Prelude.{
  ℕ, ◌-◌, ◌*◌, ◌^◌, Bytes, Bool, true, false, not, ◌&&◌, ◌==◌, ltb, List, [], ◌∷◌, ◌⊎◌, inl, inr,
  Option, none, some, length, if◌then◌else◌,
}
use vgo.Prelude.Int.{ℤ, negsuc, eqb_ℤ}
use vgo.Prelude.Dict.{Dict}
use vgo.Prelude.Outcome.{Outcome}
use vgo.Agent.Accumulator.{is_nan}
use vgo.Points.Binary.{Point}
use vgo.Points.Time.{check_time}
use vgo.Points.Parser.{max_key_length}
use vgo.Points.TagMap.{make_key, parse_tags}
use vgo.Points.Fields.{Field, float, marshal_fields, new_fields_from_binary}

-- Why there is no point.
pub data Refusal : Type 0 where
  no_field time_out_of_range not_a_number empty_field_name : Refusal
  key_too_long : ℕ → Refusal

unfoldable pub field_is_nan : Field → Bool
unfolding is_nan
field_is_nan (float x) = is_nan x
field_is_nan _ = false

-- The loop over the fields.
unfoldable pub check_fields : Dict Field → Option Refusal
unfolding field_is_nan
check_fields [] = none
check_fields ((k, v) ∷ fields) =
    let later = check_fields fields in
    if field_is_nan v
    then some not_a_number
    else if length k == 0
    then some empty_field_name
    else later

-- `time.Time{}`.
abbrev pub zero_time : ℤ
zero_time = negsuc (62135596800 * 10 ^ 9 - 1)

module _ (format_float : (bits : ℕ) → ℕ → Bytes) (escape : Bytes → Bytes) where
  -- The point, behind the checks of its fields.
  unfoldable pub built : Bytes → Dict Bytes → Dict Field → ℤ → Option Refusal → Point ℤ ⊎ Refusal
  built name tags fields time (some e) = inr e
  built name tags fields time none =
      let key = make_key name tags in
      if ltb max_key_length (length key)
      then inr (key_too_long (length key))
      else inl
          (record { time = time; key = key; fields = marshal_fields format_float escape fields })

  unfoldable pub new_point : Bytes → Dict Bytes → Dict Field → ℤ → Point ℤ ⊎ Refusal
  new_point name tags fields time =
      if length fields == 0
      then inr no_field
      else if not (eqb_ℤ time zero_time) && not (check_time time)
      then inr time_out_of_range
      else built name tags fields time (check_fields fields)

-- `Tags` of a point; the flag says that its key has spare capacity.
unfoldable pub tags : (room : Bool) → Point ℤ → Outcome (Dict Bytes)
tags room p = parse_tags room p.key

-- `Fields` of a point, which it computes once.
unfoldable pub fields :
    (Bytes → Option ℕ) → (Bytes → Bytes) → (room : Bool) → Point ℤ → Outcome (Dict Field)
fields parse_float unescape room p = new_fields_from_binary parse_float unescape room p.fields
