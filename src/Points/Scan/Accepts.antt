-- ===== src/Points/Scan/Accepts.antt =====
-- What the scanners of misc/points.go accept.
use vgo.Prelude.{
  ℕ, Bytes, codes, equal, contains, Bool, true, false, not, ◌&&◌, ◌||◌, ◌==◌, ltb, ◌≡◌, refl, ap,
  sym, subst, ◌∙◌, ◌⊎◌, arith, List, [], ◌∷◌, ◌++◌, if◌then◌else◌, Bool-cases, inl, inr,
}
use vgo.Points.Scan.{skip_whitespace, scan_digits, scan_time, scan_word, is_boolean, scan_boolean}

abbrev pub booleans : List Bytes
booleans =
    codes "t"
    ∷ codes "T"
    ∷ codes "true"
    ∷ codes "TRUE"
    ∷ codes "True"
    ∷ codes "f"
    ∷ codes "F"
    ∷ codes "false"
    ∷ codes "FALSE"
    ∷ codes "False"
    ∷ []

-- The bytes up to a comma, a space or the end.
unfoldable pub word : Bytes → Bytes
word [] = []
word (c ∷ s) = if c == b',' || c == b' ' then [] else c ∷ word s

scan_word-block : (s : Bytes) → (scan_word s).block ≡ word s
unfolding scan_word word
scan_word-block [] = refl
scan_word-block (c ∷ s) = elim (Bool-cases (c == b',' || c == b' ')) [
  | inl stops ↦ rw stops refl
  | inr goes ↦ rw (goes, scan_word-block s) refl
]

scan_word-splits : (s : Bytes) → (scan_word s).block ++ (scan_word s).rest ≡ s
unfolding scan_word
scan_word-splits [] = refl
scan_word-splits (c ∷ s) = elim (Bool-cases (c == b',' || c == b' ')) [
  | inl stops ↦ rw stops refl
  | inr goes ↦ rw goes (ap (λ t. c ∷ t) (scan_word-splits s))
]

-- A first byte for which the tests agree with the list of words.
Agrees : ℕ → Type 0
Agrees c = (s : Bytes) → is_boolean c s ≡ contains booleans (c ∷ s)

lower_t : Agrees b't'
unfolding Agrees is_boolean contains equal
lower_t [] = refl
lower_t (d ∷ []) = ground arith
lower_t (d ∷ e ∷ []) = ground arith
lower_t (d ∷ e ∷ f ∷ []) = ground arith
lower_t (d ∷ e ∷ f ∷ g ∷ []) = ground arith
lower_t (d ∷ e ∷ f ∷ g ∷ j ∷ s) = ground arith

lower_f : Agrees b'f'
unfolding Agrees is_boolean contains equal
lower_f [] = refl
lower_f (d ∷ []) = ground arith
lower_f (d ∷ e ∷ []) = ground arith
lower_f (d ∷ e ∷ f ∷ []) = ground arith
lower_f (d ∷ e ∷ f ∷ g ∷ []) = ground arith
lower_f (d ∷ e ∷ f ∷ g ∷ j ∷ s) = ground arith

upper_t : Agrees b'T'
unfolding Agrees is_boolean contains equal
upper_t [] = refl
upper_t (d ∷ []) = ground arith
upper_t (d ∷ e ∷ []) = ground arith
upper_t (d ∷ e ∷ f ∷ []) = ground arith
upper_t (d ∷ e ∷ f ∷ g ∷ []) = ground arith
upper_t (d ∷ e ∷ f ∷ g ∷ j ∷ s) = ground arith

upper_f : Agrees b'F'
unfolding Agrees is_boolean contains equal
upper_f [] = refl
upper_f (d ∷ []) = ground arith
upper_f (d ∷ e ∷ []) = ground arith
upper_f (d ∷ e ∷ f ∷ []) = ground arith
upper_f (d ∷ e ∷ f ∷ g ∷ []) = ground arith
upper_f (d ∷ e ∷ f ∷ g ∷ j ∷ s) = ground arith

first_byte :
    (c : ℕ)
    → (not (c == b't') && not (c == b'f') && not (c == b'T') && not (c == b'F')) ≡ false
    → (c ≡ b't') ⊎ ((c ≡ b'f') ⊎ ((c ≡ b'T') ⊎ (c ≡ b'F')))
first_byte c h = ground arith

is_boolean-booleans :
    (c : ℕ)
    → (not (c == b't') && not (c == b'f') && not (c == b'T') && not (c == b'F')) ≡ false
    → Agrees c
is_boolean-booleans c h = elim (first_byte c h) [
  | inl e ↦ subst Agrees (sym e) lower_t
  | inr (inl e) ↦ subst Agrees (sym e) lower_f
  | inr (inr (inl e)) ↦ subst Agrees (sym e) upper_t
  | inr (inr (inr e)) ↦ subst Agrees (sym e) upper_f
]

other_byte :
    (c : ℕ) (s : Bytes)
    → (not (c == b't') && not (c == b'f') && not (c == b'T') && not (c == b'F')) ≡ true
    → contains booleans (c ∷ s) ≡ false
unfolding contains equal
other_byte c s h = ground arith

-- scanBoolean returns no error exactly when the bytes up to the next comma, space or end are one
-- of t, T, true, TRUE, True, f, F, false, FALSE and False, and then it returns these bytes.
pub scan_boolean-accepts :
    (c : ℕ) (s : Bytes)
    → (c == b',' || c == b' ') ≡ false
    → ((scan_boolean c s).ok ≡ contains booleans (word (c ∷ s)))
      × ((scan_boolean c s).ok ≡ true → (scan_boolean c s).block ≡ word (c ∷ s))
unfolding scan_boolean word
scan_boolean-accepts c s inside =
    elim (Bool-cases (not (c == b't') && not (c == b'f') && not (c == b'T') && not (c == b'F'))) [
      | inl other ↦ (
        rw (other, inside) (sym (other_byte c (word s) other)),
        λ h. (let refused : false ≡ true = rw other at h in absurd (ground arith)),
      )
      | inr first ↦ (
        rw (first, inside, scan_word-block s)
            (unfold Agrees in is_boolean-booleans c first (word s)),
        λ h. rw (first, inside, scan_word-block s) refl,
      )
    ]

unfoldable pub digits : Bytes → Bool
digits [] = true
digits (c ∷ s) = not (ltb c b'0' || ltb b'9' c) && digits s

-- An optional minus sign and digits.
unfoldable pub integer : Bytes → Bool
unfolding digits
integer [] = true
integer (c ∷ s) = (c == b'-' || not (ltb c b'0' || ltb b'9' c)) && digits s

digit_byte : (c : ℕ) → (ltb c b'0' || ltb b'9' c) ≡ false → (c == 10) ≡ false
digit_byte c h = ground arith

scan_digits-digits : (s : Bytes) → (scan_digits false s).ok ≡ digits s
unfolding scan_digits digits
scan_digits-digits [] = refl
scan_digits-digits (c ∷ s) = elim (Bool-cases (ltb c b'0' || ltb b'9' c)) [
  | inl other ↦ rw other refl
  | inr digit ↦ rw (digit, digit_byte c digit, scan_digits-digits s) refl
]

scan_digits-block : (s : Bytes) → (scan_digits false s).ok ≡ true → (scan_digits false s).block ≡ s
unfolding scan_digits
scan_digits-block [] h = refl
scan_digits-block (c ∷ s) h = elim (Bool-cases (ltb c b'0' || ltb b'9' c)) [
  | inl other ↦ (let refused : false ≡ true = rw other at h in absurd (ground arith))
  | inr digit ↦
      let line = digit_byte c digit in
      rw (digit, line) (ap (λ t. c ∷ t) (scan_digits-block s (rw (digit, line) at h)))
]

at_start_ok : (s : Bytes) → (scan_digits true s).ok ≡ integer s
unfolding scan_digits integer
at_start_ok [] = refl
at_start_ok (c ∷ s) = elim (Bool-cases (ltb c b'0' || ltb b'9' c)) [
  | inl other ↦ elim (Bool-cases (c == b'-')) [
    | inl minus ↦ rw (other, minus) (scan_digits-digits s)
    | inr no_minus ↦ rw (other, no_minus) refl
  ]
  | inr digit ↦ rw (digit, digit_byte c digit) (scan_digits-digits s ∙ ground arith)
]

at_start_block : (s : Bytes) → (scan_digits true s).ok ≡ true → (scan_digits true s).block ≡ s
unfolding scan_digits
at_start_block [] h = refl
at_start_block (c ∷ s) h = elim (Bool-cases (ltb c b'0' || ltb b'9' c)) [
  | inl other ↦ elim (Bool-cases (c == b'-')) [
    | inl minus ↦ rw (other, minus) (ap (λ t. c ∷ t) (scan_digits-block s (rw (other, minus) at h)))
    | inr no_minus ↦
        (let refused : false ≡ true = rw (other, no_minus) at h in absurd (ground arith))
  ]
  | inr digit ↦
      let line = digit_byte c digit in
      rw (digit, line) (ap (λ t. c ∷ t) (scan_digits-block s (rw (digit, line) at h)))
]

-- scanTime returns no error exactly when all that follows the whitespace is digits after an
-- optional minus sign, or nothing, and then it returns all of it: a newline there is an error.
pub scan_time-accepts :
    (buf : Bytes)
    → ((scan_time buf).ok ≡ integer (skip_whitespace buf))
      × ((scan_time buf).ok ≡ true → (scan_time buf).block ≡ skip_whitespace buf)
unfolding scan_time
scan_time-accepts buf = (at_start_ok (skip_whitespace buf), at_start_block (skip_whitespace buf))
