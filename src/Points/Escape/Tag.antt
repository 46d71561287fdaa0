-- ===== src/Points/Escape/Tag.antt =====
-- Tags and measurements read back as they were written.
use vgo.Prelude.{
  ℕ, ◌≡◌, ◌≢◌, refl, ap, sym, ◌∙◌, Bytes, Bool-cases, false, List, [], ◌∷◌, arith, inl, inr,
}
use vgo.Points.Escape.{
  escape_byte, unescape_byte, has_byte, escape_all, unescape_all, escape_measurement,
  unescape_measurement, escape_present, unescape_present, escape_tag, unescape_tag,
  measurement_escape_codes, tag_escape_codes,
}
use vgo.Points.Escape.Byte.{unescape_byte-escape_byte, unescape-escape_byte_comm}

abbrev pub Avoids : ℕ → List ℕ → Type 0
Avoids b [] = Unit {0}
Avoids b (c ∷ cs) = (b ≢ c) × (c ≢ b'\\') × Avoids b cs

-- No code is a backslash or occurs twice.
abbrev pub AreCodes : List ℕ → Type 0
AreCodes [] = Unit {0}
AreCodes (b ∷ bs) = (b ≢ b'\\') × Avoids b bs × AreCodes bs

unescape_byte-escape_all :
    (b : ℕ) (bs : List ℕ) (s : Bytes)
    → b ≢ b'\\'
    → Avoids b bs
    → unescape_byte b (escape_all bs s) ≡ escape_all bs (unescape_byte b s)
unfolding escape_all
unescape_byte-escape_all b [] s h a = refl
unescape_byte-escape_all b (c ∷ cs) s h (ne, plain, a) =
    unescape_byte-escape_all b cs (escape_byte c s) h a
    ∙ ap (escape_all cs) (unescape-escape_byte_comm c b plain h (λ e. ne (sym e)) s)

pub unescape_all-escape_all :
    (bs : List ℕ) (s : Bytes) → AreCodes bs → unescape_all bs (escape_all bs s) ≡ s
unfolding escape_all unescape_all
unescape_all-escape_all [] s a = refl
unescape_all-escape_all (b ∷ bs) s (h, avoids, a) =
    ap (unescape_all bs) (
      unescape_byte-escape_all b bs (escape_byte b s) h avoids
      ∙ ap (escape_all bs) (unescape_byte-escape_byte b s h))
    ∙ unescape_all-escape_all bs s a

-- The test for a code that does not occur changes nothing.
escape_byte_absent : (b : ℕ) (s : Bytes) → has_byte b s ≡ false → escape_byte b s ≡ s
unfolding escape_byte has_byte
escape_byte_absent b [] h = refl
escape_byte_absent b (c ∷ s) h = ground (arith, escape_byte_absent b s)

unescape_byte_absent : (b : ℕ) (s : Bytes) → has_byte b s ≡ false → unescape_byte b s ≡ s
unfolding unescape_byte has_byte
unescape_byte_absent b [] h = refl
unescape_byte_absent b (c ∷ []) h = refl
unescape_byte_absent b (c ∷ d ∷ s) h = ground (arith, unescape_byte_absent b (d ∷ s))

pub escape_present-eq : (bs : List ℕ) (s : Bytes) → escape_present bs s ≡ escape_all bs s
unfolding escape_present escape_all
escape_present-eq [] s = refl
escape_present-eq (b ∷ bs) s = elim (Bool-cases (has_byte b s)) [
  | inl here ↦ rw here (escape_present-eq bs (escape_byte b s))
  | inr absent ↦
      rw absent (escape_present-eq bs s ∙ ap (escape_all bs) (sym (escape_byte_absent b s absent)))
]

unescape_present-eq : (bs : List ℕ) (s : Bytes) → unescape_present bs s ≡ unescape_all bs s
unfolding unescape_present unescape_all
unescape_present-eq [] s = refl
unescape_present-eq (b ∷ bs) s = elim (Bool-cases (has_byte b s)) [
  | inl here ↦ rw here (unescape_present-eq bs (unescape_byte b s))
  | inr absent ↦
      rw absent
        (unescape_present-eq bs s ∙ ap (unescape_all bs) (sym (unescape_byte_absent b s absent)))
]

-- A tag key or value that was escaped unescapes to the same bytes, whatever they are, backslashes
-- included.
pub unescape_tag-escape_tag : (s : Bytes) → unescape_tag (escape_tag s) ≡ s
unfolding escape_tag unescape_tag
unescape_tag-escape_tag s =
    unescape_present-eq tag_escape_codes (escape_present tag_escape_codes s)
    ∙ ap (unescape_all tag_escape_codes) (escape_present-eq tag_escape_codes s)
    ∙ unescape_all-escape_all tag_escape_codes s (omega arith)

-- Unescaping a measurement gives back exactly the bytes that were escaped, and the normal form
-- that MakeKey gives a name, unescaped and escaped again, is not changed by doing it twice.
pub escape_measurement_idem :
    (s : Bytes)
    → (unescape_measurement (escape_measurement s) ≡ s)
      × (escape_measurement (unescape_measurement (escape_measurement (unescape_measurement s)))
          ≡ escape_measurement (unescape_measurement s))
unfolding escape_measurement unescape_measurement
escape_measurement_idem s = (
  back s,
  ap (escape_all measurement_escape_codes) (back (unescape_all measurement_escape_codes s)),
)
  where
    back :
        (t : Bytes)
        → unescape_all measurement_escape_codes (escape_all measurement_escape_codes t) ≡ t
    back t = unescape_all-escape_all measurement_escape_codes t (omega arith)
