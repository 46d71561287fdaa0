-- ===== src/Input/Haproxy/Names.antt =====
-- mecury/plugins/input/haproxy/haproxy.go: the columns and the names of the switch, one by the other.
use vgo.Prelude.{
  ℕ, ◌≡◌, ◌≢◌, refl, ap, sym, ◌∙◌, Bytes, Bool, true, false, [], ◌∷◌, ◌&&◌, Option, none, some,
  ◌==◌, equal, equal_iff, equal_self, if◌then◌else◌, inl, inr, Bool-cases, arith,
}
use vgo.Prelude.Dict.{Dict, lookup, DistinctKeys}
use vgo.Input.Haproxy.{name_of_column}
use vgo.Input.Haproxy.Columns.{columns}

-- A test that the keys of a map are distinct.
abbrev is_absent : Option ℕ → Bool
is_absent none = true
is_absent (some n) = false

distinct : Dict ℕ → Bool
distinct [] = true
distinct ((k, v) ∷ m) = is_absent (lookup k m) && distinct m

is_absent-none : (o : Option ℕ) (b : Bool) → (is_absent o && b) ≡ true → (o ≡ none) × (b ≡ true)
is_absent-none none b h = (refl, h)
is_absent-none (some n) b h = cc

distinct-DistinctKeys : (m : Dict ℕ) → distinct m ≡ true → DistinctKeys m
unfolding distinct
distinct-DistinctKeys [] h = tt
distinct-DistinctKeys ((k, v) ∷ m) h =
    let both = is_absent-none (lookup k m) (distinct m) h in
    (both.0, distinct-DistinctKeys m both.1)

columns-DistinctKeys : DistinctKeys columns
unfolding distinct lookup equal
columns-DistinctKeys = distinct-DistinctKeys columns refl

-- The name of a column has that column as its number.
name_of_column-lookup :
    (field : ℕ) (cases : Dict ℕ) {name : Bytes}
    → DistinctKeys cases
    → name_of_column field cases ≡ some name
    → lookup name cases ≡ some field
unfolding name_of_column lookup
name_of_column-lookup field [] d e = cc
name_of_column-lookup field ((key, column) ∷ cases) {name = name} d e =
    elim (Bool-cases (column == field)) [
      | inl here ↦
          let e' : some key ≡ some name =
            sym (ap (λ b. if b then some key else name_of_column field cases) here) ∙ e in
          ground (arith, equal_self name, e', here)
      | inr further ↦
          let e' : name_of_column field cases ≡ some name =
            sym (ap (λ b. if b then some key else name_of_column field cases) further) ∙ e in
          ground (arith, equal_iff key name, d.0, name_of_column-lookup field cases d.1 e')
    ]

abbrev is_unnamed : Option Bytes → Bool
is_unnamed none = true
is_unnamed (some name) = false

is_unnamed-none :
    (o : Option Bytes) (b : Bool) → (is_unnamed o && b) ≡ true → (o ≡ none) × (b ≡ true)
is_unnamed-none none b h = (refl, h)
is_unnamed-none (some n) b h = cc

some_inj : {a b : ℕ} → some a ≡ some b → a ≡ b
some_inj e = cc

pub not-same : (column field : ℕ) → (column == field) ≡ false → column ≢ field
not-same column field h e = ground arith

-- Two columns with one name are the same.
pub same_column :
    {field column : ℕ} {name : Bytes}
    → name_of_column field columns ≡ some name
    → name_of_column column columns ≡ some name
    → field ≡ column
same_column {field = field} {column = column} e e' =
    let there = name_of_column-lookup field columns columns-DistinctKeys e in
    let there' = name_of_column-lookup column columns columns-DistinctKeys e' in
    some_inj (sym there ∙ there')

-- The names that no column has.
pub unnamed :
    (name : Bytes)
    → lookup name columns ≡ none
    → (column : ℕ) → name_of_column column columns ≢ some name
unnamed name absent column e =
    let there = name_of_column-lookup column columns columns-DistinctKeys e in cc

-- The number of a name has that name.
pub numbers_distinct : Dict ℕ → Bool
numbers_distinct [] = true
numbers_distinct ((k, c) ∷ m) = is_unnamed (name_of_column c m) && numbers_distinct m

pub lookup-name_of_column :
    (cases : Dict ℕ) {column : ℕ} {name : Bytes}
    → numbers_distinct cases ≡ true
    → lookup name cases ≡ some column
    → name_of_column column cases ≡ some name
unfolding numbers_distinct lookup name_of_column
lookup-name_of_column [] d e = cc
lookup-name_of_column ((key, first) ∷ cases) {column = column} {name = name} d e =
    let both = is_unnamed-none (name_of_column first cases) (numbers_distinct cases) d in
    elim (Bool-cases (equal key name)) [
      | inl here ↦
          let e' : some first ≡ some column =
            sym (ap (λ b. if b then some first else lookup name cases) here) ∙ e in
          ground (arith, equal_iff key name, here, e')
      | inr further ↦
          let e' : lookup name cases ≡ some column =
            sym (ap (λ b. if b then some first else lookup name cases) further) ∙ e in
          let rest = lookup-name_of_column cases both.1 e' in ground (arith, both.0, rest)
    ]

pub numbers-distinct : numbers_distinct columns ≡ true
unfolding numbers_distinct name_of_column
numbers-distinct = refl
