-- ===== src/Input/Mysql/Globals/Batches.antt =====
-- mecury/plugins/input/mysql/mysql.go: what the calls for the global variables carry together.
use vgo.Prelude.{
  ℕ, suc, ◌≤◌, ◌<◌, ◌≡◌, refl, sym, ◌∙◌, Bytes, codes, Bool, true, false, List, [], ◌∷◌, map,
  Option, none, some, leb, equal, if◌then◌else◌, length, inl, inr, Bool-cases, arith,
}
use vgo.Prelude.Dict.{
  Dict, lookup, insert, insert_all, lookup-insert, lookup-insert_all, insert-DistinctKeys,
  DistinctKeys, first_some,
}
use vgo.Input.Mysql.{row, Added, Gathered}
use vgo.Input.Mysql.Globals.{
  and_then, ends_with, call_of, send_rest, put_parsed, put_variable, variables_loop,
  gather_global_variables,
}

module _ {V : Type 0} where
  -- The fields of the calls put into one map, a later call over an earlier one.
  abbrev pub merged : List (Added V) → Dict V → Dict V
  merged [] m = m
  merged (call ∷ calls) m = merged calls (insert_all call.fields m)

  -- Each call has some fields, and no more than `n`.
  abbrev pub AllUpTo : ℕ → List (Added V) → Type 0
  AllUpTo n [] = Unit
  AllUpTo n (call ∷ calls) = (0 < length call.fields) × (length call.fields ≤ n) × AllUpTo n calls

  length-insert :
      (k : Bytes) (v : V) (m : Dict V)
      → (0 < length (insert k v m)) × (length (insert k v m) ≤ suc (length m))
  unfolding insert
  length-insert k v [] = (omega arith, omega arith)
  length-insert k v ((j, w) ∷ m) = ground (arith, length-insert k v m)

  -- `fields`, not sent yet, over what was sent show what `m` shows.
  record Agree (fields sent m : Dict V) : Type 0 where
    distinct : DistinctKeys fields
    shows : (j : Bytes) → lookup j m ≡ first_some (lookup j fields) (lookup j sent)

  Agree-insert :
      {fields sent m : Dict V} (k : Bytes) (v : V)
      → Agree fields sent m
      → Agree (insert k v fields) sent (insert k v m)
  Agree-insert {fields = fields} {m = m} k v a = record {
    distinct = insert-DistinctKeys k v fields a.distinct;
    shows = λ j. elim (Bool-cases (equal k j)) [
      | inl same ↦ rw (lookup-insert k j v fields, lookup-insert k j v m, same) refl
      | inr other ↦ rw (lookup-insert k j v fields, lookup-insert k j v m, other) (a.shows j)
    ];
  }

  Agree-sent : {fields sent m : Dict V} → Agree fields sent m → Agree [] (insert_all fields sent) m
  unfolding lookup
  Agree-sent {fields = fields} {sent = sent} a = record {
    distinct = tt;
    shows = λ j. a.shows j ∙ sym (lookup-insert_all j fields sent a.distinct);
  }

  Agree-put_parsed :
      {fields sent m : Dict V} (k : Bytes) (o : Option V)
      → Agree fields sent m
      → Agree (put_parsed k o fields) sent (put_parsed k o m)
  unfolding put_parsed
  Agree-put_parsed k none a = a
  Agree-put_parsed k (some v) a = Agree-insert k v a

  length-put_parsed :
      (k : Bytes) (o : Option V) (m : Dict V) → length (put_parsed k o m) ≤ suc (length m)
  unfolding put_parsed
  length-put_parsed k none m = omega arith
  length-put_parsed k (some v) m = (length-insert k v m).1

  -- A gathering that has succeeded, with calls of at most twenty fields each that together show `m`
  -- over what was sent before.
  pub record IsBatched {Error : Type 0} (sent m : Dict V) (r : Gathered V Error) : Type 0 where
    pub succeeds : r.error ≡ none
    pub sizes : AllUpTo 20 r.added
    pub together : (j : Bytes) → lookup j (merged r.added sent) ≡ lookup j m

  send_rest-IsBatched :
      {Error : Type 0} (measurement servtag : Bytes) (fields : Dict V) {sent m : Dict V}
      → Agree fields sent m
      → length fields ≤ 20
      → IsBatched {Error = Error} sent m (send_rest measurement servtag fields)
  unfolding send_rest and_then ends_with call_of lookup
  send_rest-IsBatched measurement servtag [] a fits = record {
    succeeds = refl;
    sizes = tt;
    together = λ j. sym (a.shows j);
  }
  send_rest-IsBatched measurement servtag (f ∷ fields) {sent = sent} a fits =
      let all = Agree-sent a in
      record { succeeds = refl; sizes = (omega arith, fits, tt); together = λ j. sym (all.shows j) }

  and_then-IsBatched :
      {Error : Type 0} (measurement servtag : Bytes) (fields : Dict V) {sent m : Dict V}
      {r : Gathered V Error}
      → 0 < length fields
      → length fields ≤ 20
      → IsBatched (insert_all fields sent) m r
      → IsBatched sent m (and_then (call_of measurement servtag fields) r)
  unfolding and_then call_of
  and_then-IsBatched measurement servtag fields some_there fits rest = record {
    succeeds = rest.succeeds;
    sizes = (some_there, fits, rest.sizes);
    together = rest.together;
  }

-- What holds of each branch under its test holds of the conditional.
both-tests {ℓ κ} :
    {A : Type ℓ} (P : A → Type κ) (b : Bool) {x y : A}
    → (b ≡ true → P x)
    → (b ≡ false → P y)
    → P (if b then x else y)
both-tests P true hx hy = hx refl
both-tests P false hx hy = hy refl

is_full : (n : ℕ) → leb 20 n ≡ true → 0 < n
is_full n h = ground arith

is_small : (n : ℕ) → leb 20 n ≡ false → n < 20
is_small n h = ground arith

module _ {Float : Type 0} (one : Float) (parse_float : Bytes → Option Float) where
  -- All the variables in one map, the last value of a name.
  abbrev pub all_variables : List (Bytes × Bytes) → Dict Float → Dict Float
  all_variables [] m = m
  all_variables ((key, val) ∷ rows) m = all_variables rows (put_variable one parse_float key val m)

  put_variable-Agree :
      (key val : Bytes) {fields sent m : Dict Float}
      → Agree fields sent m
      → Agree
          (put_variable one parse_float key val fields)
          sent
          (put_variable one parse_float key val m)
  unfolding put_variable
  put_variable-Agree key val a = Agree-put_parsed _ _ a

  put_variable-length :
      (key val : Bytes) (fields : Dict Float)
      → length (put_variable one parse_float key val fields) ≤ suc (length fields)
  unfolding put_variable
  put_variable-length key val fields = length-put_parsed _ _ fields

  module _ {Error : Type 0} where
    variables_loop-IsBatched :
        (servtag : Bytes) (rows : List (Bytes × Bytes)) (fields sent m : Dict Float)
        → Agree fields sent m
        → length fields < 20
        → IsBatched {Error = Error} sent
            (all_variables rows m)
            (variables_loop one parse_float servtag fields (map row rows))
    unfolding variables_loop
    variables_loop-IsBatched servtag [] fields sent m a few =
        send_rest-IsBatched (codes "mysql_variables") servtag fields a (omega (arith, few))
    variables_loop-IsBatched servtag ((key, val) ∷ rows) fields sent m a few =
        let fields' = put_variable one parse_float key val fields in
        let a' = put_variable-Agree key val a in
        let size : length fields' ≤ 20 = omega (arith, few, put_variable-length key val fields) in
        both-tests (IsBatched sent (all_variables rows (put_variable one parse_float key val m)))
          (leb 20 (length fields'))
          (λ full.
            and_then-IsBatched (codes "mysql_variables") servtag fields'
              (is_full (length fields') full) size
              (variables_loop-IsBatched servtag rows [] (insert_all fields' sent) _ (Agree-sent a')
                (omega arith)))
          (λ more.
            variables_loop-IsBatched servtag rows fields' sent _ a'
              (is_small (length fields') more))

    -- If the query succeeds and each row can be read, gatherGlobalVariables succeeds. Each of its
    -- calls has one to twenty fields, and together they carry each variable that parseValue takes,
    -- under its name in lower case, with its last value, and nothing else.
    pub gather_global_variables-IsBatched :
        (servtag : Bytes) (rows : List (Bytes × Bytes))
        → IsBatched {Error = Error} []
            (all_variables rows [])
            (gather_global_variables one parse_float servtag none (map row rows))
    unfolding gather_global_variables lookup
    gather_global_variables-IsBatched servtag rows =
        variables_loop-IsBatched servtag rows [] [] [] (record { distinct = tt; shows = λ j. refl })
          (omega arith)
