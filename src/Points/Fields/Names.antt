-- ===== src/Points/Fields/Names.antt =====
-- The names of fields in misc/points.go, escaped by `escape.String`, and what fields can be read
-- back.
use vgo.Prelude.{
  and_false, ℕ, ◌<◌, Bytes, equal, equal_iff, true, false, ◌||◌, ◌==◌, ◌≡◌, refl, arith, [], ◌∷◌,
  ◌++◌, Option, some, length, if◌then◌else◌, Bool-cases, inl, inr,
}
use vgo.Prelude.Dict.{Dict, lookup}
use vgo.Points.Key.{is_escape, scan_to}
use vgo.Points.TagMap.Escaped.{NoSlash}
use vgo.Points.Fields.{Field}
use vgo.Points.Fields.Values.{Storable}

-- A backslash before each comma, quote, space and equals sign.
unfoldable pub escape_codes : Bytes → Bytes
escape_codes [] = []
escape_codes (c ∷ s) =
    if c == b',' || c == b'"' || c == b' ' || c == b'='
    then b'\\' ∷ c ∷ escape_codes s
    else c ∷ escape_codes s

-- What `escape.String` and `escape.Unescape` do with a text without backslashes.
pub record EscapeLaws (escape unescape : Bytes → Bytes) : Type 0 where
  pub escapes : (s : Bytes) → NoSlash s → escape s ≡ escape_codes s
  pub undoes : (s : Bytes) → NoSlash s → unescape (escape s) ≡ s

pub scan_to-escape_codes :
    (prev : Option ℕ) (k s : Bytes)
    → NoSlash k
    → is_escape prev ≡ false
    → scan_to b'=' prev (escape_codes k ++ b'=' ∷ s)
      ≡ record { block = escape_codes k; rest = b'=' ∷ s; ok = true }
unfolding scan_to escape_codes
scan_to-escape_codes prev [] s h e = rw e refl
scan_to-escape_codes prev (c ∷ k) s h e =
    let later = scan_to-escape_codes (some c) k s h.1 h.0 in
    elim (Bool-cases (c == b',' || c == b'"' || c == b' ' || c == b'=')) [
      | inl code ↦ rw (code, later, and_false (c == b'=')) refl
      | inr other ↦
          let not_equals : (c == b'=') ≡ false = ground arith in rw (other, later, not_equals) refl
    ]

-- A key without backslashes, not empty, whose value can be stored.
pub record Plain (k : Bytes) (v : Field) : Type 0 where
  pub key_plain : NoSlash k
  pub has_key : 0 < length k
  pub stored : Storable v

abbrev pub AllPlain : Dict Field → Type 0
AllPlain [] = Unit
AllPlain ((k, v) ∷ fields) = Plain k v × AllPlain fields

pub lookup-AllPlain :
    (j : Bytes) (v : Field) (fields : Dict Field)
    → AllPlain fields
    → lookup j fields ≡ some v
    → Plain j v
unfolding lookup
lookup-AllPlain j v [] h e = cc
lookup-AllPlain j v ((k, w) ∷ fields) h e = elim (Bool-cases (equal k j)) [
  | inl same ↦
      let key_is : k ≡ j = (equal_iff k j).0 same in
      let value_is : w ≡ v = ground arith in rw (← key_is, ← value_is) h.0
  | inr other ↦ lookup-AllPlain j v fields h.1 (ground arith)
]
