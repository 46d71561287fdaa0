-- ===== src/Points/Build/ReadBack.antt =====
-- The tags and fields of a point that `NewPoint` of misc/points.go made.
use vgo.Prelude.{
  ℕ, ◌≤◌, ◌<◌, Bytes, Bool, true, false, not, ◌==◌, ltb, ◌≡◌, refl, arith, [], ◌∷◌, ◌⊎◌, inl,
  Option, none, length, and_false,
}
use vgo.Prelude.Int.{ℤ, eqb_ℤ}
use vgo.Prelude.Dict.{Dict, lookup, DistinctKeys}
use vgo.Prelude.Outcome.{returned}
use vgo.Agent.Accumulator.{is_nan}
use vgo.Points.Binary.{Point}
use vgo.Points.Time.{check_time}
use vgo.Points.TagMap.{make_key}
use vgo.Points.TagMap.Escaped.{NoSlash, AllPlain}
use vgo.Points.TagMap.RoundTrip.{parse_tags-make_key}
use vgo.Points.Fields.{Field, float, marshal_fields}
use vgo.Points.Fields.Values.{FloatLaws, Storable}
use vgo.Points.Fields.Names.{EscapeLaws, AllPlain as FieldsPlain}
use vgo.Points.Fields.RoundTrip.{new_fields-marshal_fields}
use vgo.Points.Build.{
  Refusal, field_is_nan, check_fields, zero_time, built, new_point, tags, fields,
}

stored-IsNumber : (v : Field) → Storable v → field_is_nan v ≡ false
unfolding field_is_nan is_nan
stored-IsNumber (float x) h = ground (arith, h)
stored-IsNumber (Field.float32 x) h = refl
stored-IsNumber (Field.integer n) h = refl
stored-IsNumber (Field.boolean b) h = refl
stored-IsNumber (Field.text s) h = refl
stored-IsNumber (Field.raw s) h = refl
stored-IsNumber (Field.other s) h = refl
stored-IsNumber Field.nothing h = refl

check_fields-plain : (fs : Dict Field) → FieldsPlain fs → check_fields fs ≡ none
unfolding check_fields
check_fields-plain [] h = refl
check_fields-plain ((k, v) ∷ fs) (p, h) =
    let number = stored-IsNumber v p.stored in
    let has_key : (length k == 0) ≡ false = let e = p.has_key in ground arith in
    rw (number, has_key) (check_fields-plain fs h)

makes :
    (format_float : (bits : ℕ) → ℕ → Bytes) (escape : Bytes → Bytes) (name : Bytes)
    (ts : Dict Bytes) (fs : Dict Field) (time : ℤ)
    → 0 < length fs
    → FieldsPlain fs
    → check_time time ≡ true
    → length (make_key name ts) ≤ 65535
    → new_point format_float escape name ts fs time
      ≡ inl (record {
        time = time;
        key = make_key name ts;
        fields = marshal_fields format_float escape fs;
      })
unfolding new_point built
makes format_float escape name ts fs time some_fields plain in_time short =
    let not_empty : (length fs == 0) ≡ false = ground arith in
    let fits : ltb 65535 (length (make_key name ts)) ≡ false = ground arith in
    rw
      (
        not_empty,
        in_time,
        and_false (not (eqb_ℤ time zero_time)),
        check_fields-plain fs plain,
        fits,
      )
      refl

-- What a point of this name, these tags and these fields gives back.
pub record Built (parse_float : Bytes → Option ℕ) (unescape : Bytes → Bytes) (room : Bool)
    (ts : Dict Bytes) (fs : Dict Field) (time : ℤ) (made : Point ℤ ⊎ Refusal) : Type 0 where
  pub point : Point ℤ
  pub is_made : made ≡ inl point
  pub has_time : point.time ≡ time
  pub tags_read : Dict Bytes
  pub returns_tags : tags room point ≡ returned tags_read
  pub same_tags : (j : Bytes) → lookup j tags_read ≡ lookup j ts
  pub fields_read : Dict Field
  pub returns_fields : fields parse_float unescape room point ≡ returned fields_read
  pub same_fields : (j : Bytes) → lookup j fields_read ≡ lookup j fs

-- NewPoint of a name, tags and at least one field that can be read back, at a time that is an
-- int64 of nanoseconds, with a key that is not too long, makes a point with this time, whose Tags
-- and Fields are maps equal to the tags and the fields.
pub new_point-Built :
    (format_float : (bits : ℕ) → ℕ → Bytes) (parse_float : Bytes → Option ℕ)
    (escape unescape : Bytes → Bytes) (room : Bool) (name : Bytes) (ts : Dict Bytes)
    (fs : Dict Field) (time : ℤ)
    → FloatLaws format_float parse_float
    → EscapeLaws escape unescape
    → NoSlash name
    → 0 < length name
    → DistinctKeys ts
    → AllPlain ts
    → 0 < length fs
    → FieldsPlain fs
    → check_time time ≡ true
    → length (make_key name ts) ≤ 65535
    → Built parse_float unescape room ts fs time (new_point format_float escape name ts fs time)
unfolding tags fields
new_point-Built format_float parse_float escape unescape room name ts fs time floats escapes
      plain_name named distinct plain_tags some_fields plain_fields in_time short =
    let (t, returns_t, same_t) =
      parse_tags-make_key room name ts plain_name named distinct plain_tags in
    let (f, returns_f, same_f) =
      new_fields-marshal_fields format_float parse_float escape unescape floats escapes fs room
        plain_fields in
    record {
      point = record {
        time = time;
        key = make_key name ts;
        fields = marshal_fields format_float escape fs;
      };
      is_made = makes format_float escape name ts fs time some_fields plain_fields in_time short;
      has_time = refl;
      tags_read = t;
      returns_tags = returns_t;
      same_tags = same_t;
      fields_read = f;
      returns_fields = returns_f;
      same_fields = same_f;
    }
