-- ===== src/Points/Escape/StringField.antt =====
-- String fields read back as they were written.
use vgo.Prelude.{ℕ, ◌≡◌, refl, ap, ◌∙◌, Bytes, ◌==◌, Bool-cases, false, [], ◌∷◌, arith, inl, inr}
use vgo.Points.Escape.{escape_string_field, unescape_string_field}

-- A byte that is no backslash is copied.
unescape_copies :
    (c : ℕ) (t : Bytes)
    → (c == b'\\') ≡ false
    → unescape_string_field (c ∷ t) ≡ c ∷ unescape_string_field t
unfolding unescape_string_field
unescape_copies c [] h = refl
unescape_copies c (d ∷ t) h = rw h refl

-- Unescaping a string field gives back exactly the bytes that were escaped, whatever they are.
pub unescape_string_field-escape : (s : Bytes) → unescape_string_field (escape_string_field s) ≡ s
unfolding escape_string_field unescape_string_field
unescape_string_field-escape [] = refl
unescape_string_field-escape (c ∷ s) = elim (Bool-cases (c == b'\\')) [
  | inl slash ↦ rw slash (ground (arith, unescape_string_field-escape s))
  | inr plain ↦ elim (Bool-cases (c == b'"')) [
    | inl quote ↦ rw (plain, quote) (ground (arith, unescape_string_field-escape s))
    | inr other ↦
        rw (plain, other)
          (unescape_copies c (escape_string_field s) plain
            ∙ ap (◌∷◌ c) (unescape_string_field-escape s))
  ]
]
