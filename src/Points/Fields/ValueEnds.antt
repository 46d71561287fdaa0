-- ===== src/Points/Fields/ValueEnds.antt =====
-- `scanFieldValue` of misc/points.go: where the values that `MarshalBinary` writes end.
use vgo.Prelude.{
  and_false, ℕ, Bytes, Bool, true, false, not, ◌||◌, ◌==◌, ◌≡◌, refl, ap, ◌∙◌, arith, [], ◌∷◌, ◌++◌,
  append_assoc, Bool-cases, inl, inr,
}
use vgo.Points.Escape.{escape_string_field}
use vgo.Points.Scan.{stop_at, past}
use vgo.Points.TagMap.Escaped.{NoSlash}
use vgo.Points.Fields.{quoted_text, scan_field_value}

-- No quote, no comma and no backslash.
abbrev pub IsBare : Bytes → Type 0
IsBare [] = Unit
IsBare (c ∷ s) = ((c == b'"' || c == b',' || c == b'\\') ≡ false) × IsBare s

-- Nothing, or a comma and more.
abbrev pub IsEnd : Bytes → Type 0
IsEnd [] = Unit
IsEnd (c ∷ s) = (c == b',') ≡ true

scan_end : (t : Bytes) → IsEnd t → scan_field_value false t ≡ stop_at t true
unfolding scan_field_value
scan_end [] h = refl
scan_end (c ∷ []) h = rw h refl
scan_end (c ∷ d ∷ s) h =
    let no_escape : (c == b'\\') ≡ false = ground arith in
    let no_quote : (c == b'"') ≡ false = ground arith in rw (no_escape, no_quote, h) refl

-- A byte that is none of the three is gone over.
scan_bare :
    (c : ℕ) (s : Bytes)
    → (c == b'"' || c == b',' || c == b'\\') ≡ false
    → scan_field_value false (c ∷ s) ≡ past c (scan_field_value false s)
unfolding scan_field_value
scan_bare c [] h = let no_comma : (c == b',') ≡ false = ground arith in rw no_comma refl
scan_bare c (d ∷ s) h =
    let no_escape : (c == b'\\') ≡ false = ground arith in
    let no_quote : (c == b'"') ≡ false = ground arith in
    let no_comma : (c == b',') ≡ false = ground arith in rw (no_escape, no_quote, no_comma) refl

pub scan-IsBare :
    (s t : Bytes)
    → IsBare s
    → IsEnd t
    → scan_field_value false (s ++ t) ≡ record { block = s; rest = t; ok = true }
scan-IsBare [] t h e = scan_end t e
scan-IsBare (c ∷ s) t h e = scan_bare c (s ++ t) h.0 ∙ ap (past c) (scan-IsBare s t h.1 e)

scan_quote :
    (quoted : Bool) (s : Bytes)
    → scan_field_value quoted (b'"' ∷ s) ≡ past b'"' (scan_field_value (not quoted) s)
unfolding scan_field_value
scan_quote quoted [] = refl
scan_quote quoted (d ∷ s) = refl

scan_inside :
    (c : ℕ) (s : Bytes)
    → (c == b'"') ≡ false
    → (c == b'\\') ≡ false
    → scan_field_value true (c ∷ s) ≡ past c (scan_field_value true s)
unfolding scan_field_value
scan_inside c [] quote slash = rw (and_false (c == b',')) refl
scan_inside c (d ∷ s) quote slash = rw (slash, quote, and_false (c == b',')) refl

scan_pair :
    (s : Bytes)
    → scan_field_value true (b'\\' ∷ b'"' ∷ s) ≡ past b'\\' (past b'"' (scan_field_value true s))
unfolding scan_field_value
scan_pair s = refl

-- The rest of a quoted text.
scan_text :
    (s t : Bytes)
    → NoSlash s
    → IsEnd t
    → scan_field_value true (escape_string_field s ++ b'"' ∷ t)
      ≡ record { block = escape_string_field s ++ b'"' ∷ []; rest = t; ok = true }
unfolding escape_string_field
scan_text [] t h e = scan_quote true t ∙ ap (past b'"') (scan_end t e)
scan_text (c ∷ s) t h e = elim (Bool-cases (c == b'"')) [
  | inl quote ↦
      let same : c ≡ b'"' = ground arith in
      rw same (scan_pair _ ∙ ap (λ r. past b'\\' (past b'"' r)) (scan_text s t h.1 e))
  | inr other ↦ rw (h.0, other) (scan_inside c _ other h.0 ∙ ap (past c) (scan_text s t h.1 e))
]

pub scan-quoted_text :
    (s t : Bytes)
    → NoSlash s
    → IsEnd t
    → scan_field_value false (quoted_text s ++ t)
      ≡ record { block = quoted_text s; rest = t; ok = true }
scan-quoted_text s t h e =
    scan_quote false ((escape_string_field s ++ b'"' ∷ []) ++ t)
    ∙ ap (λ r. past b'"' (scan_field_value true r))
        (append_assoc (escape_string_field s) (b'"' ∷ []) t)
    ∙ ap (past b'"') (scan_text s t h e)
