-- ===== src/Points/Tags/Limit.antt =====
-- `scanKey` of misc/points.go on keys without escapes: how many tags it takes, and which of them it
-- compares.
use vgo.Prelude.{
  ℕ, suc, ◌+◌, ◌≤◌, Bytes, equal, before, true, false, ltb, ◌≡◌, refl, ap, ap₂, ◌∙◌, arith, List,
  [], ◌∷◌, ◌++◌, append_assoc, some, length, length-append, if◌then◌else◌,
}
use vgo.Prelude.Outcome.{Outcome, returned, panicked, then_call}
use vgo.Points.Scan.{skip_whitespace}
use vgo.Points.Key.{tag_key, scan_measurement}
use vgo.Points.Tags.{Tag, Tags, but_last, Key, mirror_loop, name_of, key_of, scan_key}
use vgo.Points.Tags.Plain.{
  is_plain, plain-Ordinary, Word, bytes, joined, in_buffer, tag_of, tags_of, measurement_loop-plain,
  name_of-plain,
}
use vgo.Points.Tags.Rounds.{but_last-snoc, push_call, scan_tags-plain}

length-in_buffer :
    (t : Word × Word) (ts : List (Word × Word)) (more : Bytes)
    → length ts ≤ length (in_buffer t ts more)
unfolding in_buffer
length-in_buffer t [] more = omega arith
length-in_buffer (k, v) (u ∷ ts) more = omega (
  arith,
  length-append (bytes k) (b'=' ∷ (bytes v ++ b',' ∷ in_buffer u ts more)),
  length-append (bytes v) (b',' ∷ in_buffer u ts more),
  length-in_buffer u ts more,
)

skip-plain : (c : ℕ) (s : Bytes) → is_plain c ≡ true → skip_whitespace (c ∷ s) ≡ c ∷ s
unfolding skip_whitespace is_plain
skip-plain c s h = ground arith

measurement-plain :
    (name : Word) (s : Bytes)
    → scan_measurement (skip_whitespace (bytes name ++ b',' ∷ s))
      ≡ returned (record { taken = bytes name ++ b',' ∷ []; rest = s; next = some tag_key })
unfolding scan_measurement
measurement-plain name s =
    let o = plain-Ordinary name.first name.first_plain in
    rw
      (
        skip-plain name.first (name.others ++ b',' ∷ s) name.first_plain,
        o.no_comma,
        measurement_loop-plain name.first name.others s name.others_plain o.no_escape,
      )
      refl

-- A key with a measurement and tags that need no escapes, at most a hundred: scanKey reads all of
-- its tags and goes on to compare them, unless there are exactly a hundred of them. Then it panics.
pub scan_key-plain :
    (name : Word) (t : Word × Word) (ts : List (Word × Word)) (more : Bytes)
    → suc (length ts) ≤ 100
    → scan_key (bytes name ++ b',' ∷ in_buffer t ts more) ≡ (
        if ltb (suc (length ts)) 100
        then key_of
            (bytes name ++ b',' ∷ joined t ts)
            (bytes name)
            (b' ' ∷ more)
            (tags_of t ts more)
        else panicked)
unfolding scan_key
scan_key-plain name t ts more fits =
    let s = in_buffer t ts more in
    let enough = length-in_buffer t ts more in
    let found : Tags = record {
      taken = joined t ts;
      rest = b' ' ∷ more;
      tags = tags_of t ts more;
      ok = true;
    } in
    let start = bytes name ++ b',' ∷ [] in
    let behind : Tags → Outcome Key = λ r.
      if r.ok
      then key_of (start ++ r.taken) (but_last start) r.rest r.tags
      else returned (record { key = start ++ r.taken; rest = r.rest; ok = false }) in
    let result : Bytes → Bytes → Outcome Key = λ text measurement.
      if ltb (suc (length ts)) 100
      then key_of text measurement (b' ' ∷ more) (tags_of t ts more)
      else panicked in
    let count : 0 + suc (length ts) ≡ suc (length ts) = omega arith in
    let all = scan_tags-plain (suc (length s)) 0 t ts more (omega arith) (omega arith) in
    rw (measurement-plain name s) (
      ap (λ o. then_call o behind) (rw count at all)
      ∙ push_call (ltb (suc (length ts)) 100) found behind
      ∙ ap (λ y. result y (but_last start)) (append_assoc (bytes name) (b',' ∷ []) (joined t ts))
      ∙ ap (result (bytes name ++ b',' ∷ joined t ts)) (but_last-snoc (bytes name) b','))

mirror_loop-three :
    (a b c : Tag)
    → equal (name_of a) (name_of c) ≡ false
    → before (name_of c) (name_of a) ≡ false
    → mirror_loop 1 0 (a ∷ b ∷ c ∷ []) true ≡ some true
unfolding mirror_loop
mirror_loop-three a b c other ordered = rw (other, ordered) refl

key_of-three :
    (text measurement rest : Bytes) (a b c : Tag)
    → equal (name_of a) (name_of c) ≡ false
    → before (name_of c) (name_of a) ≡ false
    → key_of text measurement rest (a ∷ b ∷ c ∷ [])
      ≡ returned (record { key = text; rest = rest; ok = true })
unfolding key_of
key_of-three text measurement rest a b c other ordered =
    rw (mirror_loop-three a b c other ordered, key_of) refl

-- Of three tags scanKey compares the names of the first and the last only: if the first is less,
-- the key is returned as it was written, whatever the name of the second, so that the tags may be
-- out of order and two of them may have one name.
pub scan_key-three :
    (name : Word) (t u v : Word × Word) (more : Bytes)
    → equal (bytes t.0) (bytes v.0) ≡ false
    → before (bytes v.0) (bytes t.0) ≡ false
    → scan_key (bytes name ++ b',' ∷ in_buffer t (u ∷ v ∷ []) more)
      ≡ returned (record {
        key = bytes name ++ b',' ∷ joined t (u ∷ v ∷ []);
        rest = b' ' ∷ more;
        ok = true;
      })
scan_key-three name t u v more other ordered =
    let first = name_of-plain t (u ∷ v ∷ []) more in
    let last = name_of-plain v [] more in
    scan_key-plain name t (u ∷ v ∷ []) more (omega arith)
    ∙ key_of-three _ _ _ (tag_of t (u ∷ v ∷ []) more) (tag_of u (v ∷ []) more) (tag_of v [] more)
        (ap₂ equal first last ∙ other) (ap₂ before last first ∙ ordered)
