-- ===== src/Points/Escape/Byte.antt =====
-- Escaping and unescaping one code: they undo one another, and different codes commute.
use vgo.Prelude.{
  ℕ, ◌≡◌, ◌≢◌, refl, ap, sym, ◌∙◌, Bytes, ◌==◌, ==_iff, Bool-cases, true, false, [], ◌∷◌, arith,
  inl, inr,
}
use vgo.Points.Escape.{escape_byte, unescape_byte}

module _ (b : ℕ) where
  unescape_byte_copies :
      (c : ℕ) (t : Bytes) → (c == b'\\') ≡ false → unescape_byte b (c ∷ t) ≡ c ∷ unescape_byte b t
  unfolding unescape_byte
  unescape_byte_copies c [] h = refl
  unescape_byte_copies c (d ∷ t) h = rw h refl

  -- A text that does not begin with the code.
  abbrev NotFirst : Bytes → Type 0
  NotFirst [] = Unit {0}
  NotFirst (c ∷ s) = (c == b) ≡ false

  unescape_byte_slash :
      (c : ℕ) (t : Bytes) → NotFirst t → unescape_byte b (c ∷ t) ≡ c ∷ unescape_byte b t
  unfolding unescape_byte
  unescape_byte_slash c [] h = refl
  unescape_byte_slash c (d ∷ t) h = ground (arith, h)

  escape_byte-NotFirst : (s : Bytes) → b ≢ b'\\' → NotFirst (escape_byte b s)
  unfolding escape_byte
  escape_byte-NotFirst [] h = tt
  escape_byte-NotFirst (c ∷ s) h = elim (Bool-cases (c == b)) [
    | inl e ↦ rw e (ground arith)
    | inr e ↦ rw e e
  ]

  unescape_byte_pair : (t : Bytes) → unescape_byte b (b'\\' ∷ b ∷ t) ≡ b ∷ unescape_byte b t
  unfolding unescape_byte
  unescape_byte_pair t = rw ((==_iff b b).1 refl) refl

  pub unescape_byte-escape_byte : (s : Bytes) → b ≢ b'\\' → unescape_byte b (escape_byte b s) ≡ s
  unfolding escape_byte
  unescape_byte-escape_byte [] h = unfold unescape_byte in refl
  unescape_byte-escape_byte (c ∷ s) h = elim (Bool-cases (c == b)) [
    | inl e ↦
        let is = (==_iff c b).0 e in
        rw (e, is)
          (unescape_byte_pair (escape_byte b s) ∙ ap (◌∷◌ b) (unescape_byte-escape_byte s h))
    | inr e ↦ rw e (
        unescape_byte_slash c (escape_byte b s) (escape_byte-NotFirst s h)
        ∙ ap (◌∷◌ c) (unescape_byte-escape_byte s h))
  ]

NotFirst-escape :
    (b c d : ℕ) (t : Bytes) → c ≢ b'\\' → (d == c) ≡ false → NotFirst c (escape_byte b (d ∷ t))
unfolding escape_byte
NotFirst-escape b c d t h ne = elim (Bool-cases (d == b)) [
  | inl e ↦ rw e (ground arith)
  | inr e ↦ rw e ne
]

module _ (b c : ℕ) (b_plain : b ≢ b'\\') (c_plain : c ≢ b'\\') (ne : b ≢ c) where
  escape_is : (x : ℕ) (t : Bytes) → (x == b) ≡ false → escape_byte b (x ∷ t) ≡ x ∷ escape_byte b t
  unfolding escape_byte
  escape_is x t e = rw e refl

  escape_code : (t : Bytes) → escape_byte b (b ∷ t) ≡ b'\\' ∷ b ∷ escape_byte b t
  unfolding escape_byte
  escape_code t = rw ((==_iff b b).1 refl) refl

  -- A pair of a backslash and the other code is no pair that this unescape replaces.
  unescape_other : (t : Bytes) → unescape_byte c (b'\\' ∷ b ∷ t) ≡ b'\\' ∷ b ∷ unescape_byte c t
  unescape_other t =
      unescape_byte_slash c b'\\' (b ∷ t) (ground arith)
      ∙ ap (◌∷◌ b'\\') (unescape_byte_copies c b t (ground arith))

  unescape-escape_cons :
      (x : ℕ) (t : Bytes)
      → (x == b) ≡ true
      → unescape_byte c (escape_byte b t) ≡ escape_byte b (unescape_byte c t)
      → unescape_byte c (escape_byte b (x ∷ t)) ≡ escape_byte b (unescape_byte c (x ∷ t))
  unescape-escape_cons x t e ih =
      let is = (==_iff x b).0 e in
      rw is (
        rw
          (
            escape_code t,
            unescape_other (escape_byte b t),
            unescape_byte_copies c b t (ground arith),
            escape_code (unescape_byte c t),
            ih,
          )
          refl)

  unescape-escape_pair :
      (t : Bytes)
      → unescape_byte c (escape_byte b t) ≡ escape_byte b (unescape_byte c t)
      → unescape_byte c (b'\\' ∷ escape_byte b (c ∷ t))
        ≡ escape_byte b (unescape_byte c (b'\\' ∷ c ∷ t))
  unescape-escape_pair t ih =
      let other : (c == b) ≡ false = ground arith in
      rw
        (
          escape_is c t other,
          unescape_byte_pair c (escape_byte b t),
          unescape_byte_pair c t,
          escape_is c (unescape_byte c t) other,
          ih,
        )
        refl

  pub unescape-escape_byte_comm :
      (s : Bytes) → unescape_byte c (escape_byte b s) ≡ escape_byte b (unescape_byte c s)
  unescape-escape_byte_comm [] = unfold escape_byte unescape_byte in refl
  unescape-escape_byte_comm (x ∷ []) = elim (Bool-cases (x == b)) [
    | inl e ↦ unescape-escape_cons x [] e (unfold escape_byte unescape_byte in refl)
    | inr e ↦ rw (escape_is x [] e) (unfold escape_byte unescape_byte in rw e refl)
  ]
  unescape-escape_byte_comm (x ∷ d ∷ t) = elim (Bool-cases (x == b)) [
    | inl e ↦ unescape-escape_cons x (d ∷ t) e (unescape-escape_byte_comm (d ∷ t))
    | inr e ↦ rw (escape_is x (d ∷ t) e) (elim (Bool-cases (x == b'\\')) [
      | inr plain ↦
          unescape_byte_copies c x (escape_byte b (d ∷ t)) plain
          ∙ ap (◌∷◌ x) (unescape-escape_byte_comm (d ∷ t))
          ∙ sym (
              ap (escape_byte b) (unescape_byte_copies c x (d ∷ t) plain)
              ∙ escape_is x (unescape_byte c (d ∷ t)) e)
      | inl slash ↦ elim (Bool-cases (d == c)) [
        | inr other ↦
            unescape_byte_slash c x (escape_byte b (d ∷ t)) (NotFirst-escape b c d t c_plain other)
            ∙ ap (◌∷◌ x) (unescape-escape_byte_comm (d ∷ t))
            ∙ sym (
                ap (escape_byte b) (unescape_byte_slash c x (d ∷ t) other)
                ∙ escape_is x (unescape_byte c (d ∷ t)) e)
        | inl code ↦
            rw ((==_iff x b'\\').0 slash, (==_iff d c).0 code)
              (unescape-escape_pair t (unescape-escape_byte_comm t))
      ]
    ])
  ]
