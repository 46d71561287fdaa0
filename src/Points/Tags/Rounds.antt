-- ===== src/Points/Tags/Rounds.antt =====
-- The rounds of `scanTags` of misc/points.go on tags that need no escapes.
use vgo.Prelude.{
  ℕ, zero, suc, ◌+◌, ◌-◌, ◌≤◌, ◌<◌, Bytes, Bool, true, false, ltb, leb, ◌≡◌, refl, ap, sym, ◌∙◌,
  arith, List, [], ◌∷◌, ◌++◌, append_assoc, append-nil, some, length, length-append, take,
  if◌then◌else◌,
}
use vgo.Prelude.Outcome.{Outcome, returned, panicked, then_call}
use vgo.Points.Key.{tag_key, fields, scan_tags_key, scan_tags_value}
use vgo.Points.Tags.{Tags, add_tag, but_last, tags_after, scan_tags}
use vgo.Points.Tags.Plain.{
  Word, bytes, text_of, joined, in_buffer, tag_of, tags_of, scan_tags_key-plain,
  scan_tags_value-last, scan_tags_value-more,
}

pub but_last-snoc : (s : Bytes) (c : ℕ) → but_last (s ++ c ∷ []) ≡ s
but_last-snoc s c =
    let size : length (s ++ c ∷ []) - 1 ≡ length s = omega (arith, length-append s (c ∷ [])) in
    rw size (take_front s)
  where
    take_front : (t : Bytes) → take (length t) (t ++ c ∷ []) ≡ t
    take_front [] = refl
    take_front (d ∷ t) = ap (λ u. d ∷ u) (take_front t)

-- A round of the loop with room for the key, by what the two scanners return.
module _ (fuel commas : ℕ) (s key_text key_rest : Bytes) (value_text value_rest : Bytes)
    (room : commas < 100)
    (key : scan_tags_key s ≡ record { block = key_text; rest = key_rest; ok = true }) where
  round_more :
      scan_tags_value key_rest
        ≡ record { taken = value_text; rest = value_rest; next = some tag_key }
      → scan_tags (suc fuel) 100 commas s
        ≡ then_call (scan_tags fuel 100 (suc commas) value_rest) (λ r. returned (
            add_tag
              (key_text ++ value_text)
              (record { text = but_last (key_text ++ value_text); from = s })
              r))
  unfolding scan_tags
  round_more value =
      let full : leb 100 commas ≡ false = ground arith in
      let round = tags_after (scan_tags fuel) 100 commas s in
      ap (λ k. round k (scan_tags_value k.rest)) key
      ∙ ap (round (record { block = key_text; rest = key_rest; ok = true })) value
      ∙ rw full refl

  round_last :
      scan_tags_value key_rest
        ≡ record { taken = value_text; rest = value_rest; next = some fields }
      → scan_tags (suc fuel) 100 commas s ≡ (
          if ltb (suc commas) 100
          then returned (
              add_tag
                (key_text ++ value_text)
                (record { text = key_text ++ value_text; from = s })
                (record { taken = []; rest = value_rest; tags = []; ok = true }))
          else panicked)
  unfolding scan_tags
  round_last value =
      let full : leb 100 commas ≡ false = ground arith in
      let round = tags_after (scan_tags fuel) 100 commas s in
      ap (λ k. round k (scan_tags_value k.rest)) key
      ∙ ap (round (record { block = key_text; rest = key_rest; ok = true })) value
      ∙ rw full refl

scan_tags-more :
    (fuel commas : ℕ) (t u : Word × Word) (ts : List (Word × Word)) (more : Bytes)
    → commas < 100
    → scan_tags (suc fuel) 100 commas (in_buffer t (u ∷ ts) more)
      ≡ then_call
          (scan_tags fuel 100 (suc commas) (in_buffer u ts more))
          (λ r. returned (add_tag (text_of t ++ b',' ∷ []) (tag_of t (u ∷ ts) more) r))
scan_tags-more fuel commas (k, v) u ts more h =
    let s = in_buffer (k, v) (u ∷ ts) more in
    let text = bytes k ++ b'=' ∷ bytes v in
    let seam : (bytes k ++ b'=' ∷ []) ++ (bytes v ++ b',' ∷ []) ≡ text ++ b',' ∷ [] =
      append_assoc (bytes k) (b'=' ∷ []) (bytes v ++ b',' ∷ [])
      ∙ sym (append_assoc (bytes k) (b'=' ∷ bytes v) (b',' ∷ [])) in
    let next = scan_tags fuel 100 (suc commas) (in_buffer u ts more) in
    let result : Bytes → Bytes → Outcome Tags = λ taken own.
      then_call next (λ r. returned (add_tag taken (record { text = own; from = s }) r)) in
    round_more fuel commas s (bytes k ++ b'=' ∷ []) (bytes v ++ b',' ∷ in_buffer u ts more)
      (bytes v ++ b',' ∷ []) (in_buffer u ts more) h
      (unfold in_buffer in scan_tags_key-plain k (bytes v ++ b',' ∷ in_buffer u ts more))
      (scan_tags_value-more v (in_buffer u ts more))
    ∙ ap (λ y. result y (but_last y)) seam
    ∙ ap (result (text ++ b',' ∷ [])) (but_last-snoc text b',')

scan_tags_last :
    (fuel commas : ℕ) (t : Word × Word) (more : Bytes)
    → commas < 100
    → scan_tags (suc fuel) 100 commas (in_buffer t [] more) ≡ (
        if ltb (suc commas) 100
        then returned (record {
          taken = text_of t;
          rest = b' ' ∷ more;
          tags = tag_of t [] more ∷ [];
          ok = true;
        })
        else panicked)
scan_tags_last fuel commas (k, v) more h =
    let s = in_buffer (k, v) [] more in
    let seam : (bytes k ++ b'=' ∷ []) ++ bytes v ≡ text_of (k, v) =
      append_assoc (bytes k) (b'=' ∷ []) (bytes v) in
    round_last fuel commas s (bytes k ++ b'=' ∷ []) (bytes v ++ b' ' ∷ more) (bytes v) (b' ' ∷ more)
      h (unfold in_buffer in scan_tags_key-plain k (bytes v ++ b' ' ∷ more))
      (scan_tags_value-last v more)
    ∙ ap
        (λ y.
          if ltb (suc commas) 100
          then returned (
              add_tag y (record { text = y; from = s })
                (record { taken = []; rest = b' ' ∷ more; tags = []; ok = true }))
          else panicked)
        seam
    ∙ ap
        (λ y.
          if ltb (suc commas) 100
          then returned (record {
            taken = y;
            rest = b' ' ∷ more;
            tags = tag_of (k, v) [] more ∷ [];
            ok = true;
          })
          else panicked)
        (append-nil (text_of (k, v)))

pub push_call {ℓ κ} :
    {A : Type ℓ} {B : Type κ} (b : Bool) (x : A) (f : A → Outcome B)
    → then_call (if b then returned x else panicked) f ≡ (if b then f x else panicked)
push_call true x f = refl
push_call false x f = refl

pub scan_tags-plain :
    (fuel commas : ℕ) (t : Word × Word) (ts : List (Word × Word)) (more : Bytes)
    → length ts < fuel
    → commas + suc (length ts) ≤ 100
    → scan_tags fuel 100 commas (in_buffer t ts more) ≡ (
        if ltb (commas + suc (length ts)) 100
        then returned (record {
          taken = joined t ts;
          rest = b' ' ∷ more;
          tags = tags_of t ts more;
          ok = true;
        })
        else panicked)
scan_tags-plain zero commas t ts more enough fits = absurd (omega arith)
scan_tags-plain (suc fuel) commas t [] more enough fits =
    let one : suc commas ≡ commas + 1 = omega arith in
    rw (← one) (scan_tags_last fuel commas t more (omega arith))
scan_tags-plain (suc fuel) commas t (u ∷ ts) more enough fits =
    let count : suc commas + suc (length ts) ≡ commas + suc (suc (length ts)) = omega arith in
    let rec = scan_tags-plain fuel (suc commas) u ts more (omega arith) (omega arith) in
    let found : Tags = record {
      taken = joined u ts;
      rest = b' ' ∷ more;
      tags = tags_of u ts more;
      ok = true;
    } in
    let add : Tags → Outcome Tags =
      λ r. returned (add_tag (text_of t ++ b',' ∷ []) (tag_of t (u ∷ ts) more) r) in
    let result : ℕ → Bytes → Outcome Tags = λ n y.
      if ltb n 100
      then returned
          (record { taken = y; rest = b' ' ∷ more; tags = tags_of t (u ∷ ts) more; ok = true })
      else panicked in
    scan_tags-more fuel commas t u ts more (omega arith)
    ∙ ap (λ o. then_call o add) rec
    ∙ push_call (ltb (suc commas + suc (length ts)) 100) found add
    ∙ ap (λ y. result (suc commas + suc (length ts)) y)
        (append_assoc (text_of t) (b',' ∷ []) (joined u ts))
    ∙ ap (λ n. result n (joined t (u ∷ ts))) count
