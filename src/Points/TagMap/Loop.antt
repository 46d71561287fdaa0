-- ===== src/Points/TagMap/Loop.antt =====
-- The loop of `parseTags` of misc/points.go on the text of a key that `MakeKey` made.
use vgo.Prelude.{
  ℕ, zero, suc, ◌<◌, Bytes, contains, equal, equal_iff, Bool, true, false, ◌==◌, ◌≡◌, refl, ap, ◌∙◌,
  arith, List, [], ◌∷◌, ◌++◌, Option, some, length, if◌then◌else◌, Bool-cases, inl, inr,
}
use vgo.Prelude.Dict.{Dict, lookup, insert, lookup-insert}
use vgo.Prelude.Outcome.{Outcome, returned}
use vgo.Points.Escape.{escape_tag, unescape_tag}
use vgo.Points.Escape.Tag.{unescape_tag-escape_tag}
use vgo.Points.Scan.{stop_at}
use vgo.Points.Key.{scan_to}
use vgo.Points.TagMap.{value_or_empty, key_bytes, scan_tag_value, add_value, add_key, tags_loop}
use vgo.Points.TagMap.Escaped.{
  Plain, equal-escape_tag, scan_to-escape_tag, scan_tag_value-escape_tag, escape_tag-cons,
}

-- An escaped key that stands in the escaped tags with an escaped value.
pub record Held (escaped : Dict Bytes) (key : Bytes) : Type 0 where
  pub name : Bytes
  pub value : Bytes
  pub is_plain : Plain name value
  pub key_is : key ≡ escape_tag name
  pub value_is : lookup key escaped ≡ some (escape_tag value)

loop_round :
    (fuel : ℕ) (room : Bool) (prev : ℕ) (k s : Bytes) (m : Dict Bytes)
    → tags_loop (suc fuel) room prev (k ++ b'=' ∷ s) m ≡ (
        let key = scan_to b'=' (some prev) (k ++ b'=' ∷ s) in
        add_key (tags_loop fuel room) room key.block key.rest m)
unfolding tags_loop
loop_round fuel room prev [] s m = refl
loop_round fuel room prev (c ∷ k) s m = refl

-- A round of the loop on an escaped tag.
loop_tag :
    (fuel : ℕ) (room : Bool) (k v t : Bytes) (m : Dict Bytes)
    → Plain k v
    → ((p : ℕ) → (p == b'\\') ≡ false → scan_tag_value p t ≡ stop_at t true)
    → tags_loop (suc fuel) room b',' (escape_tag k ++ b'=' ∷ (escape_tag v ++ t)) m
      ≡ add_value (tags_loop fuel room) (escape_tag k) (escape_tag v) t m
loop_tag fuel room k v t m h stops =
    rw
      (
        loop_round fuel room b',' (escape_tag k) (escape_tag v ++ t) m,
        scan_to-escape_tag b',' k (escape_tag v ++ t) h.key_plain refl,
        scan_tag_value-escape_tag v t h.value_plain stops,
      )
      refl

add_last :
    (loop : ℕ → Bytes → Dict Bytes → Outcome (Dict Bytes)) (k v : Bytes) (m : Dict Bytes)
    → 0 < length v
    → add_value loop (escape_tag k) (escape_tag v) [] m ≡ returned (insert k v m)
add_last loop k [] m h = absurd (omega arith)
add_last loop k (c ∷ v) m h =
    let (d, t, e) = escape_tag-cons c v in
    rw e (rw (← e, unescape_tag-escape_tag, unescape_tag-escape_tag) refl)

add_more :
    (loop : ℕ → Bytes → Dict Bytes → Outcome (Dict Bytes)) (k v s : Bytes) (m : Dict Bytes)
    → 0 < length v
    → add_value loop (escape_tag k) (escape_tag v) (b',' ∷ s) m ≡ loop b',' s (insert k v m)
add_more loop k [] s m h = absurd (omega arith)
add_more loop k (c ∷ v) s m h =
    let (d, t, e) = escape_tag-cons c v in
    rw e (rw (← e, unescape_tag-escape_tag, unescape_tag-escape_tag) refl)

module _ (escaped : Dict Bytes) where
  abbrev pub AllHeld : List Bytes → Type 0
  AllHeld [] = Unit
  AllHeld (k ∷ ks) = Held escaped k × AllHeld ks

  -- What a tag of the escaped map is read back as.
  abbrev pub found : Bytes → Option Bytes
  found j = some (unescape_tag (value_or_empty (lookup (escape_tag j) escaped)))

  lookup-insert_Held :
      (k j : Bytes) (h : Held escaped k) (m : Dict Bytes)
      → lookup j (insert h.name h.value m)
        ≡ (if equal k (escape_tag j) then found j else lookup j m)
  lookup-insert_Held k j h m = elim (Bool-cases (equal h.name j)) [
    | inl same ↦
        let e = (equal_iff h.name j).0 same in
        rw
          (
            lookup-insert,
            same,
            h.key_is,
            equal-escape_tag h.name j,
            same,
            ← e,
            ← h.key_is,
            h.value_is,
            unescape_tag-escape_tag,
          )
          refl
    | inr other ↦ rw (lookup-insert, other, h.key_is, equal-escape_tag h.name j, other) refl
  ]

  stops_at_keys :
      (ks : List Bytes) (p : ℕ)
      → (p == b'\\') ≡ false
      → scan_tag_value p (key_bytes escaped ks) ≡ stop_at (key_bytes escaped ks) true
  unfolding key_bytes scan_tag_value
  stops_at_keys [] p h = refl
  stops_at_keys (k ∷ ks) p h = rw h refl

  -- What the loop returns for these keys.
  pub record Read (ks : List Bytes) (m : Dict Bytes) (o : Outcome (Dict Bytes)) : Type 0 where
    pub tags : Dict Bytes
    pub returns : o ≡ returned tags
    pub finds :
        (j : Bytes) → lookup j tags ≡ (if contains ks (escape_tag j) then found j else lookup j m)

  held_round :
      (fuel : ℕ) (room : Bool) (k : Bytes) (ks : List Bytes) (m : Dict Bytes) (h : Held escaped k)
      → tags_loop
          (suc fuel)
          room
          b','
          (k ++ b'=' ∷ (value_or_empty (lookup k escaped) ++ key_bytes escaped ks))
          m
        ≡ add_value
            (tags_loop fuel room)
            (escape_tag h.name)
            (escape_tag h.value)
            (key_bytes escaped ks)
            m
  held_round fuel room k ks m h =
      rw (h.value_is, h.key_is)
        (loop_tag fuel room h.name h.value (key_bytes escaped ks) m h.is_plain (stops_at_keys ks))

  abbrev pub tags_text : Bytes → List Bytes → Bytes
  tags_text k ks = k ++ b'=' ∷ (value_or_empty (lookup k escaped) ++ key_bytes escaped ks)

  last_round :
      (fuel : ℕ) (room : Bool) (k : Bytes) (m : Dict Bytes) (h : Held escaped k)
      → tags_loop (suc fuel) room b',' (tags_text k []) m ≡ returned (insert h.name h.value m)
  last_round fuel room k m h =
      held_round fuel room k [] m h
      ∙ unfold key_bytes in add_last (tags_loop fuel room) h.name h.value m h.is_plain.has_value

  more_round :
      (fuel : ℕ) (room : Bool) (k k' : Bytes) (ks : List Bytes) (m : Dict Bytes)
      (h : Held escaped k)
      → tags_loop (suc fuel) room b',' (tags_text k (k' ∷ ks)) m
        ≡ tags_loop fuel room b',' (tags_text k' ks) (insert h.name h.value m)
  more_round fuel room k k' ks m h =
      held_round fuel room k (k' ∷ ks) m h
      ∙ unfold key_bytes in
        add_more (tags_loop fuel room) h.name h.value (tags_text k' ks) m h.is_plain.has_value

  contains-one :
      (k j : Bytes) (old : Option Bytes)
      → (if equal k (escape_tag j) then found j else old)
        ≡ (if contains (k ∷ []) (escape_tag j) then found j else old)
  unfolding contains
  contains-one k j old = ground arith

  contains-or :
      (k j : Bytes) (ks : List Bytes) (old : Option Bytes)
      → (if contains ks (escape_tag j)
          then found j
          else if equal k (escape_tag j)
          then found j
          else old)
        ≡ (if contains (k ∷ ks) (escape_tag j) then found j else old)
  unfolding contains
  contains-or k j ks old = ground arith

  pub loop_reads :
      (fuel : ℕ) (room : Bool) (k : Bytes) (ks : List Bytes) (m : Dict Bytes)
      → Held escaped k
      → AllHeld ks
      → length ks < fuel
      → Read (k ∷ ks) m (tags_loop fuel room b',' (tags_text k ks) m)
  loop_reads zero room k ks m h hs enough = absurd (omega arith)
  loop_reads (suc fuel) room k [] m h hs enough = record {
    tags = insert h.name h.value m;
    returns = last_round fuel room k m h;
    finds = λ j. lookup-insert_Held k j h m ∙ contains-one k j (lookup j m);
  }
  loop_reads (suc fuel) room k (k' ∷ ks) m h hs enough =
      let later = loop_reads fuel room k' ks (insert h.name h.value m) hs.0 hs.1 (omega arith) in
      record {
        tags = later.tags;
        returns = more_round fuel room k k' ks m h ∙ later.returns;
        finds = λ j.
            later.finds j
            ∙ ap (λ old. if contains (k' ∷ ks) (escape_tag j) then found j else old)
                (lookup-insert_Held k j h m)
            ∙ contains-or k j (k' ∷ ks) (lookup j m);
      }
