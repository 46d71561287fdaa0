-- ===== src/Prelude/Dict.antt =====
-- Go maps with string keys. An update in place keeps the place of its key, a new key comes last.
use mathlib.Core.Path.{◌≡◌, refl}
use mathlib.Core.Option.{Option, none, some}
use mathlib.Core.List.{List, [], ◌∷◌, ◌++◌}
use native.Mathlib.Omega.{arith}
use mathlib.Core.Logic.{inl, inr}
use vgo.Prelude.Tests.{if◌then◌else◌, Bool-cases}
use vgo.Prelude.ByteString.{Bytes, equal, equal_iff, equal_self, equal_comm}

abbrev pub Dict {ℓ} : Type ℓ → Type ℓ
Dict V = List (Bytes × V)

module _ {ℓ} {V : Type ℓ} where
  unfoldable pub lookup : (key : Bytes) → Dict V → Option V
  lookup key [] = none
  lookup key ((found, value) ∷ rest) = if equal found key then some value else lookup key rest

  unfoldable pub insert : (key : Bytes) → V → Dict V → Dict V
  insert key new [] = (key, new) ∷ []
  insert key new ((found, old) ∷ rest) =
      if equal found key then (key, new) ∷ rest else (found, old) ∷ insert key new rest

  unfoldable pub delete : Bytes → Dict V → Dict V
  delete k [] = []
  delete k ((j, w) ∷ m) = if equal j k then delete k m else (j, w) ∷ delete k m

  -- `for k, v := range more { m[k] = v }`.
  unfoldable pub insert_all : Dict V → Dict V → Dict V
  insert_all [] m = m
  insert_all ((k, v) ∷ more) m = insert_all more (insert k v m)

  pub insert_all-append :
      (xs ys m : Dict V) → insert_all (xs ++ ys) m ≡ insert_all ys (insert_all xs m)
  unfolding insert_all
  insert_all-append [] ys m = refl
  insert_all-append ((k, v) ∷ xs) ys m = insert_all-append xs ys (insert k v m)

  pub lookup-insert :
      (k j : Bytes) (v : V) (m : Dict V)
      → lookup j (insert k v m) ≡ (if equal k j then some v else lookup j m)
  unfolding insert lookup
  lookup-insert k j v [] = refl
  lookup-insert k j v ((first, w) ∷ rest) =
      let same = equal_iff first in
      ground (arith, equal_iff k j, same k, same j, lookup-insert k j v rest)

  pub lookup-insert_self : (k : Bytes) (v : V) (m : Dict V) → lookup k (insert k v m) ≡ some v
  lookup-insert_self k v m = ground (arith, lookup-insert k k v m, equal_self k)

  pub lookup-delete :
      (k j : Bytes) (m : Dict V) → lookup j (delete k m) ≡ (if equal k j then none else lookup j m)
  unfolding lookup delete
  lookup-delete k j [] = ground arith
  lookup-delete k j ((i, w) ∷ m) =
      ground (arith, equal_iff k j, equal_iff i k, equal_iff i j, lookup-delete k j m)

-- The keys of a map are distinct.
abbrev pub DistinctKeys {ℓ} : {V : Type ℓ} → Dict V → Type ℓ
DistinctKeys [] = Unit
DistinctKeys ((k, v) ∷ m) = (lookup k m ≡ none) × DistinctKeys m

-- An insertion keeps them so.
pub insert-DistinctKeys {ℓ} :
    {V : Type ℓ} (k : Bytes) (v : V) (m : Dict V) → DistinctKeys m → DistinctKeys (insert k v m)
unfolding insert lookup
insert-DistinctKeys k v [] d = (refl, tt)
insert-DistinctKeys k v ((j, w) ∷ m) d = elim (Bool-cases (equal j k)) [
  | inl same ↦ let at = (equal_iff j k).0 same in rw same (rw (← at) d.0, d.1)
  | inr other ↦
      rw other
        (rw (lookup-insert k j v m, equal_comm k j, other) d.0, insert-DistinctKeys k v m d.1)
]

-- `for k, w := range ws { m[k] = f(k, w, m[k]) }`.
module _ {ℓ κ} {V : Type ℓ} {W : Type κ} (f : Bytes → W → Option V → V) where
  unfoldable pub upsert_all : Dict W → Dict V → Dict V
  upsert_all [] m = m
  upsert_all ((k, w) ∷ ws) m = upsert_all ws (insert k (f k w (lookup k m)) m)

  abbrev pub upserted : Bytes → Option W → Option V → Option V
  upserted k none old = old
  upserted k (some w) old = some (f k w old)

  -- Each key of `ws` is updated once, from what the map held; no other key is touched.
  pub lookup-upsert_all :
      (j : Bytes) (ws : Dict W) (m : Dict V)
      → DistinctKeys ws
      → lookup j (upsert_all ws m) ≡ upserted j (lookup j ws) (lookup j m)
  unfolding upsert_all lookup
  lookup-upsert_all j [] m d = refl
  lookup-upsert_all j ((k, w) ∷ ws) m d = elim (Bool-cases (equal k j)) [
    | inl same ↦
        let e = (equal_iff k j).0 same in
        rw (lookup-upsert_all j ws _ d.1, lookup-insert, same, ← e, d.0)
    | inr other ↦ rw (lookup-upsert_all j ws _ d.1, lookup-insert, other)
  ]

-- The first of two that is there.
abbrev pub first_some {ℓ} : {A : Type ℓ} → Option A → Option A → Option A
first_some (some a) b = some a
first_some none b = b

-- What was put in hides what was there before.
pub lookup-insert_all {ℓ} :
    {V : Type ℓ} (j : Bytes) (more m : Dict V)
    → DistinctKeys more
    → lookup j (insert_all more m) ≡ first_some (lookup j more) (lookup j m)
unfolding insert_all lookup
lookup-insert_all j [] m d = refl
lookup-insert_all j ((k, v) ∷ more) m d = elim (Bool-cases (equal k j)) [
  | inl same ↦
      let e = (equal_iff k j).0 same in
      rw (lookup-insert_all j more _ d.1, lookup-insert, same, ← e, d.0) refl
  | inr other ↦ rw (lookup-insert_all j more _ d.1, lookup-insert, other) refl
]
