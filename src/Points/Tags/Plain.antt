-- ===== src/Points/Tags/Plain.antt =====
-- What `scanTags` and `scanKey` of misc/points.go do with tags that need no escapes.
use vgo.Prelude.{
  ℕ, Bytes, Bool, true, false, not, ◌||◌, ◌==◌, ◌≡◌, refl, ap, arith, List, [], ◌∷◌, ◌++◌, Option,
  none, some,
}
use vgo.Points.Key.{
  tag_key, fields, is_escape, scan_to, measurement_loop, tag_key_loop, scan_tags_key,
  tag_value_loop, scan_tags_value,
}
use vgo.Points.Tags.{Tag, name_of}

-- No space, comma, equals sign, backslash, tab or zero.
unfoldable pub is_plain : ℕ → Bool
is_plain c = not (c == b' ' || c == b',' || c == b'=' || c == b'\\' || c == 9 || c == 0)

abbrev pub AllPlain : Bytes → Type 0
AllPlain [] = Unit
AllPlain (c ∷ s) = (is_plain c ≡ true) × AllPlain s

-- A word: plain bytes, at least one.
pub record Word : Type 0 where
  pub first : ℕ
  pub others : Bytes
  pub first_plain : is_plain first ≡ true
  pub others_plain : AllPlain others

abbrev pub bytes : Word → Bytes
bytes w = w.first ∷ w.others

abbrev pub text_of : Word × Word → Bytes
text_of (k, v) = bytes k ++ b'=' ∷ bytes v

-- Tags with commas between them.
abbrev pub joined : Word × Word → List (Word × Word) → Bytes
joined t [] = text_of t
joined t (u ∷ ts) = text_of t ++ b',' ∷ joined u ts

-- The same in a buffer, before a space and more.
unfoldable pub in_buffer : Word × Word → List (Word × Word) → Bytes → Bytes
in_buffer (k, v) [] more = bytes k ++ b'=' ∷ (bytes v ++ b' ' ∷ more)
in_buffer (k, v) (u ∷ ts) more = bytes k ++ b'=' ∷ (bytes v ++ b',' ∷ in_buffer u ts more)

abbrev pub tag_of : Word × Word → List (Word × Word) → Bytes → Tag
tag_of t ts more = record { text = text_of t; from = in_buffer t ts more }

abbrev pub tags_of : Word × Word → List (Word × Word) → Bytes → List Tag
tags_of t [] more = tag_of t [] more ∷ []
tags_of t (u ∷ ts) more = tag_of t (u ∷ ts) more ∷ tags_of u ts more

-- None of the tests takes a plain byte.
pub record Ordinary (c : ℕ) : Type 0 where
  pub no_space : (c == b' ') ≡ false
  pub no_comma : (c == b',') ≡ false
  pub no_equals : (c == b'=') ≡ false
  pub no_escape : (c == b'\\') ≡ false

pub plain-Ordinary : (c : ℕ) → is_plain c ≡ true → Ordinary c
unfolding is_plain
plain-Ordinary c h = record {
  no_space = ground arith;
  no_comma = ground arith;
  no_equals = ground arith;
  no_escape = ground arith;
}

tag_key_loop-plain :
    (prev : ℕ) (k s : Bytes)
    → AllPlain k
    → (prev == b'\\') ≡ false
    → tag_key_loop prev (k ++ b'=' ∷ s) ≡ record { block = k ++ b'=' ∷ []; rest = s; ok = true }
unfolding tag_key_loop
tag_key_loop-plain prev [] s h e = rw e refl
tag_key_loop-plain prev (c ∷ k) s h e =
    let o = plain-Ordinary c h.0 in
    rw (o.no_space, o.no_comma, o.no_equals, tag_key_loop-plain c k s h.1 o.no_escape) refl

pub scan_tags_key-plain :
    (k : Word) (s : Bytes)
    → scan_tags_key (bytes k ++ b'=' ∷ s)
      ≡ record { block = bytes k ++ b'=' ∷ []; rest = s; ok = true }
unfolding scan_tags_key
scan_tags_key-plain k s =
    let o = plain-Ordinary k.first k.first_plain in
    rw
      (
        o.no_space,
        o.no_comma,
        o.no_equals,
        tag_key_loop-plain k.first k.others s k.others_plain o.no_escape,
      )
      refl

tag_value_loop-last :
    (prev : ℕ) (v s : Bytes)
    → AllPlain v
    → (prev == b'\\') ≡ false
    → tag_value_loop prev (v ++ b' ' ∷ s)
      ≡ record { taken = v; rest = b' ' ∷ s; next = some fields }
unfolding tag_value_loop
tag_value_loop-last prev [] s h e = rw e refl
tag_value_loop-last prev (c ∷ v) s h e =
    let o = plain-Ordinary c h.0 in
    rw (o.no_space, o.no_comma, o.no_equals, tag_value_loop-last c v s h.1 o.no_escape) refl

tag_value_loop-more :
    (prev : ℕ) (v s : Bytes)
    → AllPlain v
    → (prev == b'\\') ≡ false
    → tag_value_loop prev (v ++ b',' ∷ s)
      ≡ record { taken = v ++ b',' ∷ []; rest = s; next = some tag_key }
unfolding tag_value_loop
tag_value_loop-more prev [] s h e = rw e refl
tag_value_loop-more prev (c ∷ v) s h e =
    let o = plain-Ordinary c h.0 in
    rw (o.no_space, o.no_comma, o.no_equals, tag_value_loop-more c v s h.1 o.no_escape) refl

pub scan_tags_value-last :
    (v : Word) (s : Bytes)
    → scan_tags_value (bytes v ++ b' ' ∷ s)
      ≡ record { taken = bytes v; rest = b' ' ∷ s; next = some fields }
unfolding scan_tags_value
scan_tags_value-last v s =
    let o = plain-Ordinary v.first v.first_plain in
    rw (o.no_space, o.no_comma, tag_value_loop-last v.first v.others s v.others_plain o.no_escape)
      refl

pub scan_tags_value-more :
    (v : Word) (s : Bytes)
    → scan_tags_value (bytes v ++ b',' ∷ s)
      ≡ record { taken = bytes v ++ b',' ∷ []; rest = s; next = some tag_key }
unfolding scan_tags_value
scan_tags_value-more v s =
    let o = plain-Ordinary v.first v.first_plain in
    rw (o.no_space, o.no_comma, tag_value_loop-more v.first v.others s v.others_plain o.no_escape)
      refl

scan_to-plain :
    (prev : Option ℕ) (k s : Bytes)
    → AllPlain k
    → is_escape prev ≡ false
    → scan_to b'=' prev (k ++ b'=' ∷ s) ≡ record { block = k; rest = b'=' ∷ s; ok = true }
unfolding scan_to
scan_to-plain prev [] s h e = rw e refl
scan_to-plain prev (c ∷ k) s h e =
    let o = plain-Ordinary c h.0 in
    rw (o.no_equals, scan_to-plain (some c) k s h.1 o.no_escape) refl

pub name_of-plain :
    (t : Word × Word) (ts : List (Word × Word)) (more : Bytes)
    → name_of (tag_of t ts more) ≡ bytes t.0
unfolding name_of
name_of-plain (k, v) ts more =
    ap (λ r. r.block) (scan_to-plain none (bytes k) (bytes v) (k.first_plain, k.others_plain) refl)

pub measurement_loop-plain :
    (prev : ℕ) (name s : Bytes)
    → AllPlain name
    → (prev == b'\\') ≡ false
    → measurement_loop prev (name ++ b',' ∷ s)
      ≡ record { taken = name ++ b',' ∷ []; rest = s; next = some tag_key }
unfolding measurement_loop
measurement_loop-plain prev [] s h e = rw e refl
measurement_loop-plain prev (c ∷ name) s h e =
    let o = plain-Ordinary c h.0 in
    rw (e, o.no_comma, o.no_space, measurement_loop-plain c name s h.1 o.no_escape) refl
