-- ===== src/Points/TagMap/Escaped.antt =====
-- The scanners of misc/points.go on escaped tags and names without backslashes.
use vgo.Prelude.{
  and_false, ℕ, ◌<◌, Bytes, equal, equal_iff, length, Bool, true, false, ◌||◌, ◌==◌, ◌≡◌, refl, ap,
  ◌∙◌, sym, arith, [], ◌∷◌, ◌++◌, Option, some, Bool-cases, inl, inr,
}
use vgo.Points.Escape.{
  escape_byte, escape_all, escape_tag, unescape_tag, escape_measurement, unescape_byte,
  unescape_all, unescape_measurement, tag_escape_codes,
}
use vgo.Prelude.Dict.{Dict}
use vgo.Points.Escape.Tag.{escape_present-eq, unescape_tag-escape_tag}
use vgo.Points.Scan.{stop_at}
use vgo.Points.Key.{is_escape, scan_to}
use vgo.Points.TagMap.{scan_tag_value}

-- No backslash.
abbrev pub NoSlash : Bytes → Type 0
NoSlash [] = Unit
NoSlash (c ∷ s) = ((c == b'\\') ≡ false) × NoSlash s

-- A key and a value without backslashes, and a value.
pub record Plain (k v : Bytes) : Type 0 where
  pub key_plain : NoSlash k
  pub value_plain : NoSlash v
  pub has_value : 0 < length v

abbrev pub AllPlain : Dict Bytes → Type 0
AllPlain [] = Unit
AllPlain ((k, v) ∷ tags) = Plain k v × AllPlain tags

abbrev is_code : ℕ → Bool
is_code c = c == b',' || c == b' ' || c == b'='

-- A code gets a backslash, another byte does not.
escape_code :
    (c : ℕ) (s : Bytes)
    → is_code c ≡ true
    → escape_all tag_escape_codes (c ∷ s) ≡ b'\\' ∷ c ∷ escape_all tag_escape_codes s
unfolding escape_all escape_byte
escape_code c s h = ground arith

escape_other :
    (c : ℕ) (s : Bytes)
    → is_code c ≡ false
    → escape_all tag_escape_codes (c ∷ s) ≡ c ∷ escape_all tag_escape_codes s
unfolding escape_all escape_byte
escape_other c s h = ground arith

name_code :
    (c : ℕ) (s : Bytes)
    → (c == b',' || c == b' ') ≡ true
    → escape_measurement (c ∷ s) ≡ b'\\' ∷ c ∷ escape_measurement s
unfolding escape_measurement escape_all escape_byte
name_code c s h = ground arith

name_other :
    (c : ℕ) (s : Bytes)
    → (c == b',' || c == b' ') ≡ false
    → escape_measurement (c ∷ s) ≡ c ∷ escape_measurement s
unfolding escape_measurement escape_all escape_byte
name_other c s h = ground arith

-- The scan of a tag's name goes over it.
scan_to-escape :
    (prev : Option ℕ) (k s : Bytes)
    → NoSlash k
    → is_escape prev ≡ false
    → scan_to b'=' prev (escape_all tag_escape_codes k ++ b'=' ∷ s)
      ≡ record { block = escape_all tag_escape_codes k; rest = b'=' ∷ s; ok = true }
unfolding scan_to
scan_to-escape prev [] s h e = unfold escape_all escape_byte in rw e refl
scan_to-escape prev (c ∷ k) s h e =
    let later = scan_to-escape (some c) k s h.1 h.0 in
    elim (Bool-cases (is_code c)) [
      | inl code ↦ rw (escape_code c k code, later, and_false (c == b'=')) refl
      | inr other ↦
          let not_equals : (c == b'=') ≡ false = ground arith in
          rw (escape_other c k other, later, not_equals) refl
    ]

-- The scan of a tag's value goes over it, to a place where it stops.
scan_tag_value-escape :
    (prev : ℕ) (v t : Bytes)
    → NoSlash v
    → (prev == b'\\') ≡ false
    → ((p : ℕ) → (p == b'\\') ≡ false → scan_tag_value p t ≡ stop_at t true)
    → scan_tag_value prev (escape_all tag_escape_codes v ++ t)
      ≡ record { block = escape_all tag_escape_codes v; rest = t; ok = true }
unfolding scan_tag_value
scan_tag_value-escape prev [] t h e stops = unfold escape_all escape_byte in stops prev e
scan_tag_value-escape prev (c ∷ v) t h e stops =
    let later = scan_tag_value-escape c v t h.1 h.0 stops in
    elim (Bool-cases (is_code c)) [
      | inl code ↦ rw (escape_code c v code, later, and_false (c == b',')) refl
      | inr other ↦
          let not_comma : (c == b',') ≡ false = ground arith in
          rw (escape_other c v other, later, not_comma) refl
    ]

-- A name without backslashes is its own unescaped form, and the scan for a comma goes over it when
-- it is escaped.
pub scan_to_name :
    (prev : Option ℕ) (name t : Bytes)
    → NoSlash name
    → is_escape prev ≡ false
    → ((p : Option ℕ) → is_escape p ≡ false → scan_to b',' p t ≡ stop_at t true)
    → scan_to b',' prev (escape_measurement name ++ t)
      ≡ record { block = escape_measurement name; rest = t; ok = true }
unfolding scan_to escape_measurement
scan_to_name prev [] t h e stops = unfold escape_all escape_byte in stops prev e
scan_to_name prev (c ∷ name) t h e stops =
    let later = scan_to_name (some c) name t h.1 h.0 stops in
    elim (Bool-cases (c == b',' || c == b' ')) [
      | inl code ↦ rw (name_code c name code, later, and_false (c == b',')) refl
      | inr other ↦
          let not_comma : (c == b',') ≡ false = ground arith in
          rw (name_other c name other, later, not_comma) refl
    ]

unescape_byte-NoSlash : (b : ℕ) (s : Bytes) → NoSlash s → unescape_byte b s ≡ s
unfolding unescape_byte
unescape_byte-NoSlash b [] h = refl
unescape_byte-NoSlash b (c ∷ []) h = refl
unescape_byte-NoSlash b (c ∷ d ∷ s) h = rw (h.0, unescape_byte-NoSlash b (d ∷ s) h.1) refl

pub unescape_measurement-NoSlash : (s : Bytes) → NoSlash s → unescape_measurement s ≡ s
unfolding unescape_measurement unescape_all
unescape_measurement-NoSlash s h =
    ap (unescape_byte b' ') (unescape_byte-NoSlash b',' s h) ∙ unescape_byte-NoSlash b' ' s h

pub escape_tag-eq : (s : Bytes) → escape_tag s ≡ escape_all tag_escape_codes s
unfolding escape_tag
escape_tag-eq s = escape_present-eq tag_escape_codes s

pub scan_to-escape_tag :
    (prev : ℕ) (k s : Bytes)
    → NoSlash k
    → (prev == b'\\') ≡ false
    → scan_to b'=' (some prev) (escape_tag k ++ b'=' ∷ s)
      ≡ record { block = escape_tag k; rest = b'=' ∷ s; ok = true }
scan_to-escape_tag prev k s h e = rw (escape_tag-eq k) (scan_to-escape (some prev) k s h e)

-- What stands behind a tag: nothing, or a comma and more.
pub scan_tag_value-escape_tag :
    (v t : Bytes)
    → NoSlash v
    → ((p : ℕ) → (p == b'\\') ≡ false → scan_tag_value p t ≡ stop_at t true)
    → scan_tag_value b'=' (escape_tag v ++ t) ≡ record { block = escape_tag v; rest = t; ok = true }
scan_tag_value-escape_tag v t h stops =
    rw (escape_tag-eq v) (scan_tag_value-escape b'=' v t h refl stops)

-- The escaped form of a text that is not empty is not empty.
pub escape_tag-cons : (c : ℕ) (s : Bytes) → (d : ℕ) × (t : Bytes) × (escape_tag (c ∷ s) ≡ d ∷ t)
escape_tag-cons c s = elim (Bool-cases (is_code c)) [
  | inl code ↦
      (b'\\', c ∷ escape_all tag_escape_codes s, escape_tag-eq (c ∷ s) ∙ escape_code c s code)
  | inr other ↦ (c, escape_all tag_escape_codes s, escape_tag-eq (c ∷ s) ∙ escape_other c s other)
]

pub escape_measurement-cons :
    (c : ℕ) (s : Bytes) → (d : ℕ) × (t : Bytes) × (escape_measurement (c ∷ s) ≡ d ∷ t)
escape_measurement-cons c s = elim (Bool-cases (c == b',' || c == b' ')) [
  | inl code ↦ (b'\\', c ∷ escape_measurement s, name_code c s code)
  | inr other ↦ (c, escape_measurement s, name_other c s other)
]

pub equal-escape_tag : (a b : Bytes) → equal (escape_tag a) (escape_tag b) ≡ equal a b
equal-escape_tag a b = elim (Bool-cases (equal a b)) [
  | inl same ↦
      let e = (equal_iff a b).0 same in
      (equal_iff (escape_tag a) (escape_tag b)).1 (ap escape_tag e) ∙ sym same
  | inr other ↦ elim (Bool-cases (equal (escape_tag a) (escape_tag b))) [
    | inr differ ↦ differ ∙ sym other
    | inl same ↦
        let e = (equal_iff (escape_tag a) (escape_tag b)).0 same in
        let back : a ≡ b =
          sym (unescape_tag-escape_tag a) ∙ ap unescape_tag e ∙ unescape_tag-escape_tag b in
        same ∙ sym ((equal_iff a b).1 back)
  ]
]
