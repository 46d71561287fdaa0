-- ===== src/Points/Fields/RoundTrip.antt =====
-- `newFieldsFromBinary` of misc/points.go reads back the fields that `MarshalBinary` wrote.
use vgo.Prelude.{
  ℕ, zero, suc, ◌-◌, ◌<◌, Bytes, contains, equal, equal_iff, equal_self, Bool, true, false, ◌≡◌,
  refl, ap, sym, ◌∙◌, arith, List, [], ◌∷◌, ◌++◌, append_assoc, Option, none, some, length,
  length-append, take, if◌then◌else◌, Bool-cases, Option-cases, inl, inr,
}
use vgo.Prelude.Dict.{Dict, lookup, insert, lookup-insert}
use vgo.Prelude.Outcome.{Outcome, returned}
use vgo.Points.Scan.{Scanned}
use vgo.Points.Key.{is_escape, scan_to}
use vgo.Points.TagMap.{sort_strings, keys}
use vgo.Points.TagMap.Escaped.{NoSlash}
use vgo.Points.TagMap.Sorted.{contains-sort_strings, contains-keys, is_some}
use vgo.Points.Tags.Rounds.{but_last-snoc}
use vgo.Points.Fields.{
  Field, value_bytes, field_or_nothing, fields_bytes, marshal_fields, scan_field_value, next_byte,
  add_field, add_name, from_loop, new_fields_from_binary,
}
use vgo.Points.Fields.Values.{FloatLaws, Reads, value_bytes-ReadBack}
use vgo.Points.Fields.ValueEnds.{IsEnd}
use vgo.Points.Fields.Names.{EscapeLaws, scan_to-escape_codes, Plain, AllPlain, lookup-AllPlain}

module _ (format_float : (bits : ℕ) → ℕ → Bytes) (parse_float : Bytes → Option ℕ)
    (escape unescape : Bytes → Bytes) (floats : FloatLaws format_float parse_float)
    (escapes : EscapeLaws escape unescape) (fields : Dict Field) where
  record Held (key : Bytes) : Type 0 where
    value : Field
    plain : Plain key value
    here : lookup key fields ≡ some value

  abbrev AllHeld : List Bytes → Type 0
  AllHeld [] = Unit
  AllHeld (k ∷ ks) = Held k × AllHeld ks

  abbrev bytes_of : Bytes → Bytes
  bytes_of k = value_bytes format_float (field_or_nothing (lookup k fields))

  -- The text of the fields with these keys, without the comma at the end.
  abbrev fields_text : Bytes → List Bytes → Bytes
  fields_text k [] = escape k ++ b'=' ∷ (bytes_of k ++ [])
  fields_text k (k' ∷ ks) = escape k ++ b'=' ∷ (bytes_of k ++ b',' ∷ fields_text k' ks)

  field_assoc : (a b t u : Bytes) → a ++ b'=' ∷ (b ++ (t ++ u)) ≡ (a ++ b'=' ∷ (b ++ t)) ++ u
  field_assoc a b t u =
      sym (append_assoc a (b'=' ∷ (b ++ t)) u ∙ ap (λ r. a ++ b'=' ∷ r) (append_assoc b t u))

  fields_bytes-text :
      (k : Bytes) (ks : List Bytes)
      → fields_bytes format_float escape fields (k ∷ ks) ≡ fields_text k ks ++ b',' ∷ []
  unfolding fields_bytes
  fields_bytes-text k [] = field_assoc (escape k) (bytes_of k) [] (b',' ∷ [])
  fields_bytes-text k (k' ∷ ks) =
      ap (λ r. escape k ++ b'=' ∷ (bytes_of k ++ b',' ∷ r)) (fields_bytes-text k' ks)
      ∙ field_assoc (escape k) (bytes_of k) (b',' ∷ fields_text k' ks) (b',' ∷ [])

  scan_to-escape :
      (prev : Option ℕ) (k s : Bytes)
      → NoSlash k
      → is_escape prev ≡ false
      → scan_to b'=' prev (escape k ++ b'=' ∷ s)
        ≡ record { block = escape k; rest = b'=' ∷ s; ok = true }
  scan_to-escape prev k s h e = rw (escapes.escapes k h) (scan_to-escape_codes prev k s h e)

  loop_round :
      (fuel : ℕ) (room : Bool) (prev : Option ℕ) (k s : Bytes) (m : Dict Field)
      → from_loop parse_float unescape (suc fuel) room prev (k ++ b'=' ∷ s) m ≡ (
          let name = scan_to b'=' prev (k ++ b'=' ∷ s) in
          add_name parse_float
            (λ d. from_loop parse_float unescape fuel room (some d))
            room
            (unescape name.block)
            name.rest
            m)
  unfolding from_loop
  loop_round fuel room prev [] s m = refl
  loop_round fuel room prev (c ∷ k) s m = refl

  add_field-Reads :
      (loop : ℕ → Bytes → Dict Field → Outcome (Dict Field)) (k value rest : Bytes) (v : Field)
      (m : Dict Field)
      → 0 < length k
      → Reads parse_float v value
      → add_field parse_float loop k value rest m ≡ next_byte loop rest (insert k v m)
  add_field-Reads loop [] value rest v m h r = absurd (omega arith)
  add_field-Reads loop (n ∷ k) [] rest v m h r = absurd r
  add_field-Reads loop (n ∷ k) (c ∷ value) rest v m h r = rw r refl

  add_name-cons :
      (loop : ℕ → Bytes → Dict Field → Outcome (Dict Field)) (room : Bool) (k s : Bytes)
      (m : Dict Field)
      → add_name parse_float loop room k (b'=' ∷ s) m ≡ (
          let value = scan_field_value false s in
          add_field parse_float loop k value.block value.rest m)
  add_name-cons loop room [] s m = refl
  add_name-cons loop room (n ∷ k) s m = refl

  -- A round of the loop on a field, with the end or a comma behind it.
  held_round :
      (fuel : ℕ) (room : Bool) (prev : Option ℕ) (k t : Bytes) (m : Dict Field) (h : Held k)
      → is_escape prev ≡ false
      → IsEnd t
      → from_loop parse_float unescape (suc fuel) room prev (escape k ++ b'=' ∷ (bytes_of k ++ t)) m
        ≡ next_byte (λ d. from_loop parse_float unescape fuel room (some d)) t (insert k h.value m)
  held_round fuel room prev k t m h e ends =
      let r = value_bytes-ReadBack format_float parse_float h.value t floats h.plain.stored ends in
      let loop : ℕ → Bytes → Dict Field → Outcome (Dict Field) =
        λ d. from_loop parse_float unescape fuel room (some d) in
      let text = value_bytes format_float h.value ++ t in
      rw h.here (
        loop_round fuel room prev (escape k) text m
        ∙ ap (λ (name : Scanned). add_name parse_float loop room (unescape name.block) name.rest m)
            (scan_to-escape prev k text h.plain.key_plain e)
        ∙ ap (λ n. add_name parse_float loop room n (b'=' ∷ text) m)
            (escapes.undoes k h.plain.key_plain)
        ∙ add_name-cons loop room k text m
        ∙ ap (λ (value : Scanned). add_field parse_float loop k value.block value.rest m) r.scanned
        ∙ add_field-Reads loop k (value_bytes format_float h.value) t h.value m h.plain.has_key
            r.reads)

  record Read (ks : List Bytes) (m : Dict Field) (o : Outcome (Dict Field)) : Type 0 where
    read : Dict Field
    returns : o ≡ returned read
    finds : (j : Bytes) → lookup j read ≡ (if contains ks j then lookup j fields else lookup j m)

  lookup-insert_Held :
      (k j : Bytes) (h : Held k) (m : Dict Field)
      → lookup j (insert k h.value m) ≡ (if equal k j then lookup j fields else lookup j m)
  lookup-insert_Held k j h m = elim (Bool-cases (equal k j)) [
    | inl same ↦ let e = (equal_iff k j).0 same in rw (lookup-insert, same, ← e) (sym h.here)
    | inr other ↦ rw (lookup-insert, other) refl
  ]

  contains-one :
      (k j : Bytes) (found old : Option Field)
      → (if equal k j then found else old) ≡ (if contains (k ∷ []) j then found else old)
  unfolding contains
  contains-one k j found old = ground arith

  contains-or :
      (k j : Bytes) (ks : List Bytes) (found old : Option Field)
      → (if contains ks j then found else if equal k j then found else old)
        ≡ (if contains (k ∷ ks) j then found else old)
  unfolding contains
  contains-or k j ks found old = ground arith

  loop_reads :
      (fuel : ℕ) (room : Bool) (prev : Option ℕ) (k : Bytes) (ks : List Bytes) (m : Dict Field)
      → Held k
      → AllHeld ks
      → is_escape prev ≡ false
      → length ks < fuel
      → Read (k ∷ ks) m (from_loop parse_float unescape fuel room prev (fields_text k ks) m)
  loop_reads zero room prev k ks m h hs e enough = absurd (omega arith)
  loop_reads (suc fuel) room prev k [] m h hs e enough = record {
    read = insert k h.value m;
    returns = held_round fuel room prev k [] m h e tt;
    finds = λ j. lookup-insert_Held k j h m ∙ contains-one k j (lookup j fields) (lookup j m);
  }
  loop_reads (suc fuel) room prev k (k' ∷ ks) m h hs e enough =
      let later =
        loop_reads fuel room (some b',') k' ks (insert k h.value m) hs.0 hs.1 refl (omega arith) in
      record {
        read = later.read;
        returns = held_round fuel room prev k (b',' ∷ fields_text k' ks) m h e refl ∙ later.returns;
        finds = λ j.
            later.finds j
            ∙ ap (λ old. if contains (k' ∷ ks) j then lookup j fields else old)
                (lookup-insert_Held k j h m)
            ∙ contains-or k j (k' ∷ ks) (lookup j fields) (lookup j m);
      }

  length-fields_text : (k : Bytes) (ks : List Bytes) → length ks < length (fields_text k ks)
  length-fields_text k [] = omega (arith, length-append (escape k) (b'=' ∷ (bytes_of k ++ [])))
  length-fields_text k (k' ∷ ks) =
      let more = fields_text k' ks in
      omega (
        arith,
        length-append (escape k) (b'=' ∷ (bytes_of k ++ b',' ∷ more)),
        length-append (bytes_of k) (b',' ∷ more),
        length-fields_text k' ks,
      )

  text_none :
      (room : Bool)
      → (let b = fields_bytes format_float escape fields [] in
          Read [] [] (new_fields_from_binary parse_float unescape room (take (length b - 1) b)))
  unfolding new_fields_from_binary fields_bytes from_loop contains
  text_none room = record { read = []; returns = refl; finds = λ j. refl }

  -- The bytes of these fields without the comma at the end.
  text_reads :
      (room : Bool) (ks : List Bytes)
      → AllHeld ks
      → (let b = fields_bytes format_float escape fields ks in
          Read ks [] (new_fields_from_binary parse_float unescape room (take (length b - 1) b)))
  unfolding new_fields_from_binary
  text_reads room [] hs = text_none room
  text_reads room (k ∷ ks) hs =
      rw (fields_bytes-text k ks, but_last-snoc (fields_text k ks) b',')
        (loop_reads (suc (length (fields_text k ks))) room none k ks [] hs.0 hs.1 refl
          (omega (arith, length-fields_text k ks)))

  all_Held : (ks : List Bytes) → ((k : Bytes) → contains ks k ≡ true → Held k) → AllHeld ks
  unfolding contains
  all_Held [] h = tt
  all_Held (k ∷ ks) h = (h k (rw (equal_self k) refl), all_Held ks λ j e. h j (ground arith))

  sorted-Held : AllPlain fields → AllHeld (sort_strings (keys fields))
  sorted-Held all_plain = all_Held (sort_strings (keys fields)) λ k e.
      let there = sym (contains-keys fields k) ∙ sym (contains-sort_strings (keys fields) k) ∙ e in
      elim (Option-cases (lookup k fields)) [
        | inl absent ↦
            (let no : true ≡ false = sym there ∙ ap is_some absent in absurd (ground arith))
        | inr (v, here) ↦ record {
          value = v;
          plain = lookup-AllPlain k v fields all_plain here;
          here = here;
        }
      ]

  found-fields :
      (j : Bytes)
      → (if contains (sort_strings (keys fields)) j then lookup j fields else lookup j [])
        ≡ lookup j fields
  unfolding lookup
  found-fields j = elim (Option-cases (lookup j fields)) [
    | inl absent ↦ rw (contains-sort_strings, contains-keys, absent) refl
    | inr (v, here) ↦ rw (contains-sort_strings, contains-keys, here) refl
  ]

  -- newFieldsFromBinary reads back what MarshalBinary wrote: it returns a map with the same field,
  -- or none, for every key. Each field has a key without backslashes that is not empty, and is an
  -- int64, a finite float64, a Boolean or a text without backslashes; ParseFloat reads what
  -- FormatFloat writes, and escape.Unescape undoes escape.String.
  pub new_fields-marshal_fields :
      (room : Bool)
      → AllPlain fields
      → (read : Dict Field) × (new_fields_from_binary parse_float unescape room
            (marshal_fields format_float escape fields)
          ≡ returned read)
        × ((j : Bytes) → lookup j read ≡ lookup j fields)
  unfolding marshal_fields
  new_fields-marshal_fields room all_plain =
      let r = text_reads room (sort_strings (keys fields)) (sorted-Held all_plain) in
      (r.read, r.returns, λ j. r.finds j ∙ found-fields j)
