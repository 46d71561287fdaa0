-- ===== src/Input/Haproxy/Named.antt =====
-- mecury/plugins/input/haproxy/haproxy.go: which field a column of a row becomes.
use vgo.Prelude.{
  ℕ, zero, suc, ◌+◌, ◌<◌, ◌≡◌, ◌≢◌, refl, ap, sym, ◌∙◌, Bytes, codes, List, [], ◌∷◌, Option, none,
  some, ◌==◌, equal, equal_iff, equal_self, if◌then◌else◌, inl, inr, Bool-cases, ==_iff, get_elem?,
  ◌>>=◌, arith,
}
use vgo.Prelude.Dict.{Dict, lookup, lookup-insert, first_some}
use vgo.Input.Haproxy.{
  parse_uint, name_of_column, put_field, gather_columns, Measurement, import_row,
}
use vgo.Input.Haproxy.Columns.{columns}
use vgo.Input.Haproxy.Names.{
  same_column, unnamed, lookup-name_of_column, numbers-distinct, not-same,
}

-- The number that is read from a column, counted from `field` on.
abbrev cell : ℕ → ℕ → List Bytes → Option ℕ
cell field column [] = none
cell field column (v ∷ row) = if column == field then parse_uint v else cell (suc field) column row

cell-past : (field column : ℕ) (row : List Bytes) → column < field → cell field column row ≡ none
cell-past field column [] h = refl
cell-past field column (v ∷ row) h =
    ground (arith, cell-past (suc field) column row (omega (arith, h)))

cell-get :
    (field k : ℕ) (row : List Bytes) → cell field (field + k) row ≡ (get_elem? row k >>= parse_uint)
cell-get field k [] = refl
cell-get field zero (v ∷ row) = ground arith
cell-get field (suc k) (v ∷ row) = ground (
  arith,
  ap (λ i. cell (suc field) i row) {x = field + suc k} {y = suc field + k} (omega arith),
  cell-get (suc field) k row,
)

lookup-put_field :
    (name : Bytes) (target : Option Bytes) (value : Option ℕ) (m : Dict ℕ)
    → target ≢ some name
    → lookup name (put_field target value m) ≡ lookup name m
unfolding put_field
lookup-put_field name none value m h = refl
lookup-put_field name (some other) none m h = refl
lookup-put_field name (some other) (some n) m h =
    ground (arith, lookup-insert other name n m, equal_iff other name, h)

lookup-put_field_self :
    (name : Bytes) (value : Option ℕ) (m : Dict ℕ)
    → lookup name (put_field (some name) value m) ≡ first_some value (lookup name m)
unfolding put_field
lookup-put_field_self name none m = refl
lookup-put_field_self name (some n) m = ground (arith, lookup-insert name name n m, equal_self name)

first_some-none : (o : Option ℕ) → first_some o none ≡ o
first_some-none none = refl
first_some-none (some n) = refl

gather_columns-lookup :
    (field : ℕ) (row : List Bytes) (m : Dict ℕ) (column : ℕ) {name : Bytes}
    → name_of_column column columns ≡ some name
    → lookup name (gather_columns field row m) ≡ first_some (cell field column row) (lookup name m)
unfolding gather_columns
gather_columns-lookup field [] m column e = refl
gather_columns-lookup field (v ∷ row) m column {name = name} e =
    let m' = put_field (name_of_column field columns) (parse_uint v) m in
    let rest = gather_columns-lookup (suc field) row m' column e in
    elim (Bool-cases (column == field)) [
      | inl here ↦
          let at = (==_iff column field).0 here in
          let named = ap (λ f. name_of_column f columns) (sym at) ∙ e in
          rw
            (
              rest,
              cell-past (suc field) column row (omega (arith, at)),
              named,
              lookup-put_field_self,
              here,
            )
            refl
      | inr further ↦
          let other =
            lookup-put_field name (name_of_column field columns) (parse_uint v) m
              (λ same. not-same column field further (same_column e same)) in
          rw (rest, other, further) refl
    ]

gather_columns-others :
    (field : ℕ) (row : List Bytes) (m : Dict ℕ) (name : Bytes)
    → ((column : ℕ) → name_of_column column columns ≢ some name)
    → lookup name (gather_columns field row m) ≡ lookup name m
unfolding gather_columns
gather_columns-others field [] m name h = refl
gather_columns-others field (v ∷ row) m name h =
    gather_columns-others (suc field) row _ name h
    ∙ lookup-put_field name (name_of_column field columns) (parse_uint v) m (h field)

gather_columns-eq :
    (row : List Bytes) (name : Bytes) (o : Option ℕ)
    → lookup name columns ≡ o
    → lookup name (gather_columns 0 row []) ≡ (o >>= λ column. get_elem? row column >>= parse_uint)
unfolding lookup
gather_columns-eq row name none e = gather_columns-others 0 row [] name (unnamed name e)
gather_columns-eq row name (some column) e =
    let named = lookup-name_of_column columns numbers-distinct e in
    gather_columns-lookup 0 row [] column named
    ∙ first_some-none (cell 0 column row)
    ∙ ap (λ c. cell 0 c row) {x = column} {y = 0 + column} (omega arith)
    ∙ cell-get 0 column row

-- What a row becomes: its tags, and for each name of the switch the number in its column.
pub record IsNamed (host pxname svname : Bytes) (row : List Bytes) (m : Measurement) : Type 0 where
  pub server_tag : lookup (codes "server") m.tags ≡ some host
  pub proxy_tag : lookup (codes "proxy") m.tags ≡ some pxname
  pub sv_tag : lookup (codes "sv") m.tags ≡ some svname
  pub named :
      (name : Bytes)
      → lookup name m.fields
        ≡ (lookup name columns >>= λ column. get_elem? row column >>= parse_uint)

-- A row with two columns or more becomes one measurement, tagged with the host, the proxy and the
-- server. Its field of a name is the number in the column of the switch with that name, if the
-- row has the column and it holds a decimal number below 2^64; there are no other fields.
pub import_row-IsNamed :
    (host pxname svname : Bytes) (row : List Bytes)
    → (m : Measurement) × (import_row host (pxname ∷ svname ∷ row) ≡ some m)
      × IsNamed host pxname svname (pxname ∷ svname ∷ row) m
unfolding import_row lookup equal
import_row-IsNamed host pxname svname row = (
  record {
    tags = (codes "server", host) ∷ (codes "proxy", pxname) ∷ (codes "sv", svname) ∷ [];
    fields = gather_columns 0 (pxname ∷ svname ∷ row) [];
  },
  refl,
  record {
    server_tag = refl;
    proxy_tag = refl;
    sv_tag = refl;
    named = λ name. gather_columns-eq (pxname ∷ svname ∷ row) name (lookup name columns) refl;
  },
)
