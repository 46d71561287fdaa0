-- ===== src/Agent/Accumulator/Fields.antt =====
-- The tags, the fields and the timestamp of what AddFields sends.
use vgo.Prelude.{
  ℕ, ◌+◌, ◌*◌, ◌%◌, ◌≤◌, ◌≡◌, ◌≢◌, inl, inr, refl, ap, sym, subst, ◌∙◌, Bytes, Bool, true, false,
  [], ◌∷◌, ◌++◌, Option, none, some, ltb, if◌then◌else◌, arith, equal, equal_iff, equal_self,
  Bool-cases, Option-cases,
}
use vgo.Prelude.Dict.{
  Dict, lookup, insert, lookup-insert, DistinctKeys, lookup-upsert_all, upserted,
}
use vgo.Prelude.Int.{ℤ, pos, ◌≤ℤ◌}
use vgo.Agent.Filter.{GlobLibrary, InputFilter, should_tags_pass, should_fields_pass}
use vgo.Agent.Accumulator.{
  Value, uint64, float64, is_nan, is_inf, round, precision_of, clean, keep, InputConfig, Accumulate,
  clean_all, add_tags, emit, add_fields,
}

-- The first of three that is there.
abbrev pub first_of_three {ℓ} : {A : Type ℓ} → Option A → Option A → Option A → Option A
first_of_three (some a) b c = some a
first_of_three none (some b) c = some b
first_of_three none none c = c

upserted-keep :
    (k : Bytes) (caller plugin daemon : Option Bytes)
    → upserted keep k daemon (upserted keep k plugin caller) ≡ first_of_three caller plugin daemon
unfolding keep
upserted-keep k (some a) (some b) (some c) = refl
upserted-keep k (some a) (some b) none = refl
upserted-keep k (some a) none (some c) = refl
upserted-keep k (some a) none none = refl
upserted-keep k none (some b) (some c) = refl
upserted-keep k none (some b) none = refl
upserted-keep k none none (some c) = refl
upserted-keep k none none none = refl

module _ (lib : GlobLibrary) {Metric : Type 0}
    (new_point : Bytes → Dict Bytes → Dict Value → ℕ → Option Metric) (daemon : Dict Bytes) where
  -- Every tag of a measurement is the caller's if it set the key, else the plugin's, else the
  -- daemon's.
  pub lookup-add_tags :
      (c : InputConfig lib) (tags : Dict Bytes) (k : Bytes)
      → DistinctKeys c.tags
      → DistinctKeys daemon
      → lookup k (add_tags lib new_point daemon c tags)
        ≡ first_of_three (lookup k tags) (lookup k c.tags) (lookup k daemon)
  unfolding add_tags
  lookup-add_tags c tags k d e =
      lookup-upsert_all keep k daemon _ e
      ∙ ap (upserted keep k (lookup k daemon)) (lookup-upsert_all keep k c.tags tags d)
      ∙ upserted-keep k (lookup k tags) (lookup k c.tags) (lookup k daemon)

-- What a field becomes: nothing if it is filtered or not a number that can be stored.
abbrev pub sent_value : Bool → Option Value → Option Value
sent_value true (some v) = clean v
sent_value _ _ = none

module _ (lib : GlobLibrary) (f : InputFilter lib) where
  put_clean : Bytes → Value → Dict Value → Dict Value
  put_clean k v result =
      if should_fields_pass lib f k
      then elim (clean v) [ none ↦ result | some w ↦ insert k w result ]
      else result

  or_else : Option Value → Option Value → Option Value
  or_else (some v) o = some v
  or_else none o = o

  lookup-put_clean :
      (j k : Bytes) (v : Value) (result : Dict Value)
      → lookup j (put_clean k v result) ≡ (
          if equal k j
          then or_else (sent_value (should_fields_pass lib f k) (some v)) (lookup j result)
          else lookup j result)
  unfolding put_clean or_else
  lookup-put_clean j k v result = elim (Bool-cases (should_fields_pass lib f k)) [
    | inl pass ↦ elim (Option-cases (clean v)) [
      | inl e ↦ rw (pass, e) (ground arith)
      | inr (w, e) ↦ rw (pass, e) (ground (arith, lookup-insert k j w result))
    ]
    | inr drop ↦ rw drop (ground arith)
  ]

  sent-none : (b : Bool) → sent_value b none ≡ none
  sent-none true = refl
  sent-none false = refl

  lookup-clean_all_onto :
      (j : Bytes) (fields result : Dict Value)
      → DistinctKeys fields
      → lookup j (clean_all lib f fields result)
        ≡ or_else (sent_value (should_fields_pass lib f j) (lookup j fields)) (lookup j result)
  unfolding clean_all lookup or_else put_clean
  lookup-clean_all_onto j [] result d = rw sent-none refl
  lookup-clean_all_onto j ((k, v) ∷ fields) result d = elim (Bool-cases (equal k j)) [
    | inl same ↦
        let e = (equal_iff k j).0 same in
        lookup-clean_all_onto j fields (put_clean k v result) d.1
        ∙ rw (← e, d.0, sent-none) (lookup-put_clean k k v result ∙ rw (equal_self k) refl)
    | inr other ↦
        lookup-clean_all_onto j fields (put_clean k v result) d.1
        ∙ rw (lookup-put_clean j k v result, other) refl
  ]

  -- A field is in what is sent exactly if the measurement has it, the input's filter lets it pass
  -- and its value can be stored; and then with its stored value.
  pub lookup-clean_all :
      (j : Bytes) (fields : Dict Value)
      → DistinctKeys fields
      → lookup j (clean_all lib f fields [])
        ≡ sent_value (should_fields_pass lib f j) (lookup j fields)
  unfolding or_else lookup
  lookup-clean_all j fields d = lookup-clean_all_onto j fields [] d ∙ or_none _
    where
      or_none : (o : Option Value) → or_else o none ≡ o
      or_none none = refl
      or_none (some v) = refl

-- What InfluxDB can store: no uint64, and no float64 that is not a number or infinite.
abbrev pub IsStorable : Value → Type 0
IsStorable (uint64 n) = ⊥
IsStorable (float64 bits) = (is_nan bits ≡ false) × (is_inf bits ≡ false)
IsStorable v = Unit

abbrev Stored : Option Value → Type 0
Stored none = Unit
Stored (some v) = IsStorable v

clean-IsStorable : (v w : Value) → clean v ≡ some w → IsStorable w
unfolding clean
clean-IsStorable (uint64 n) w h = elim (Bool-cases (ltb n 9223372036854775808)) [
  | inl fits ↦ subst Stored (rw fits at h) tt
  | inr large ↦ subst Stored (rw large at h) tt
]
clean-IsStorable (float64 bits) w h = elim (Bool-cases (is_nan bits)) [
  | inl nan ↦ cc (rw nan at h)
  | inr number ↦ elim (Bool-cases (is_inf bits)) [
    | inl inf ↦ cc (rw (number, inf) at h)
    | inr finite ↦ subst Stored (rw (number, finite) at h) (number, finite)
  ]
]
clean-IsStorable v w h = subst Stored h tt

-- The precision of a gathering interval of at least a nanosecond is no coarser than the interval,
-- and a rounded timestamp is a multiple of it, at most half of it away.
pub round-precision_of :
    (interval : ℤ) (t : ℕ)
    → pos 1 ≤ℤ interval
    → (pos (precision_of interval) ≤ℤ interval)
      × (round t (precision_of interval) % precision_of interval ≡ 0)
      × (2 * round t (precision_of interval) ≤ 2 * t + precision_of interval)
      × (2 * t ≤ 2 * round t (precision_of interval) + precision_of interval)
unfolding round precision_of
round-precision_of interval t h = ground arith

module _ (lib : GlobLibrary) {Metric : Type 0}
    (new_point : Bytes → Dict Bytes → Dict Value → ℕ → Option Metric) (daemon : Dict Bytes) where
  -- What is known of a metric on its way to the channel.
  pub record IsSent (ac : Accumulate lib) (measurement : Bytes) (fields : Dict Value)
      (tags : Dict Bytes) (m : Metric) : Type 0 where
    pub sent_fields : Dict Value
    pub time : ℕ
    pub made :
        new_point
          (ac.input_config.prefix ++ measurement ++ ac.input_config.suffix)
          (add_tags lib new_point daemon ac.input_config tags)
          sent_fields
          time
        ≡ some m
    pub tags_pass :
        should_tags_pass lib ac.input_config.filter
          (add_tags lib new_point daemon ac.input_config tags)
        ≡ true
    pub some_field : sent_fields ≢ []
    pub all_fields :
        (j : Bytes)
        → lookup j sent_fields
          ≡ sent_value (should_fields_pass lib ac.input_config.filter j) (lookup j fields)
    pub storable : (j : Bytes) (w : Value) → lookup j sent_fields ≡ some w → IsStorable w

  sent_value-IsStorable :
      (b : Bool) (v : Option Value) (w : Value) → sent_value b v ≡ some w → IsStorable w
  sent_value-IsStorable true (some v) w h = clean-IsStorable v w h
  sent_value-IsStorable true none w h = cc
  sent_value-IsStorable false v w h = cc

  emit-some :
      (ac : Accumulate lib) (measurement : Bytes) (tags : Dict Bytes) (fields : Dict Value) (t : ℕ)
      (m : Metric)
      → emit lib new_point daemon ac measurement tags fields t ≡ some m
      → (fields ≢ []) × (new_point measurement tags fields (round t ac.precision) ≡ some m)
  unfolding emit
  emit-some ac measurement tags [] t m h = cc
  emit-some ac measurement tags (f ∷ fs) t m h = (λ e. cc, h)

  pub add_fields-IsSent :
      (ac : Accumulate lib) (measurement : Bytes) (fields : Dict Value) (tags : Dict Bytes)
      (t : Option ℕ) (now : ℕ) (m : Metric)
      → DistinctKeys fields
      → (add_fields lib new_point daemon ac measurement fields tags t now).1 ≡ some m
      → IsSent ac measurement fields tags m
  unfolding add_fields
  add_fields-IsSent ac [] fields tags t now m d h = cc
  add_fields-IsSent ac (c ∷ cs) [] tags t now m d h = cc
  add_fields-IsSent ac (c ∷ cs) (f ∷ fs) tags t now m d h =
      let filter = ac.input_config.filter in
      elim (Bool-cases
        (should_tags_pass lib filter (add_tags lib new_point daemon ac.input_config tags))) [
          | inl pass ↦
              let (some_field, made) = emit-some ac _ _ _ _ m (rw (pass, add_fields) at h) in
              record {
                sent_fields = clean_all lib filter (f ∷ fs) [];
                time = _;
                made = made;
                tags_pass = pass;
                some_field = some_field;
                all_fields = λ j. lookup-clean_all lib filter j (f ∷ fs) d;
                storable = λ j w e.
                    sent_value-IsStorable (should_fields_pass lib filter j) (lookup j (f ∷ fs)) w
                      (sym (lookup-clean_all lib filter j (f ∷ fs) d) ∙ e);
              }
          | inr drop ↦ absurd (nothing (rw (drop, add_fields) at h))
        ]
    where
      nothing : ◌≡◌ {A = Option Metric} none (some m) → ⊥
      nothing e = cc
