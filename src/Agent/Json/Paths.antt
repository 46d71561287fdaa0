-- ===== src/Agent/Json/Paths.antt =====
-- The fields that FlattenJSON of agent/parser.go makes are named by the paths to the numbers.
use vgo.Prelude.{
  ℕ, zero, suc, ◌+◌, ◌/◌, ◌%◌, Bytes, false, ◌==◌, ltb, ◌≡◌, refl, ap, sym, ◌∙◌, arith, [], ◌∷◌,
  ◌++◌, append_assoc, both-if,
}
use vgo.Prelude.Decimal.{itoa, digits_loop}
use vgo.Prelude.Dict.{Dict, insert_all, insert_all-append}
use vgo.Agent.Json.{
  Json, Members, Elements, no_members, member, no_elements, element, trim_left, trim_right, trim,
  below, flattened, flatten, flatten_members, flatten_elements,
}

-- The first byte, or the last one, is no underscore.
abbrev pub StartsClean : Bytes → Type 0
StartsClean [] = ⊥
StartsClean (c ∷ s) = (c == b'_') ≡ false

abbrev pub EndsClean : Bytes → Type 0
EndsClean [] = ⊥
EndsClean (c ∷ []) = (c == b'_') ≡ false
EndsClean (c ∷ d ∷ s) = EndsClean (d ∷ s)

abbrev pub IsCleanKey : Bytes → Type 0
IsCleanKey k = StartsClean k × EndsClean k

-- Every key in the value is clean, and the value is what JSON is decoded into.
unfoldable mutual
  pub IsClean : Json → Type 0
  IsClean (Json.object ms) = MembersClean ms
  IsClean (Json.array es) = ElementsClean es
  IsClean Json.other = ⊥
  IsClean _ = Unit

  pub MembersClean : Members → Type 0
  MembersClean no_members = Unit
  MembersClean (member k v ms) = IsCleanKey k × IsClean v × MembersClean ms

  pub ElementsClean : Elements → Type 0
  ElementsClean no_elements = Unit
  ElementsClean (element v es) = IsClean v × ElementsClean es

-- A path with one more key: an underscore stands between two.
abbrev pub extend : Bytes → Bytes → Bytes
extend [] k = k
extend (c ∷ path) k = c ∷ path ++ b'_' ∷ k

-- The numbers in a value, each with the path to it, in their order.
unfoldable mutual
  pub leaves : Bytes → Json → Dict ℕ
  leaves path (Json.object ms) = leaves_members path ms
  leaves path (Json.array es) = leaves_elements path 0 es
  leaves path (Json.number x) = (path, x) ∷ []
  leaves path _ = []

  pub leaves_members : Bytes → Members → Dict ℕ
  leaves_members path no_members = []
  leaves_members path (member k v ms) = leaves (extend path k) v ++ leaves_members path ms

  pub leaves_elements : Bytes → (i : ℕ) → Elements → Dict ℕ
  leaves_elements path i no_elements = []
  leaves_elements path i (element v es) =
      leaves (extend path (itoa i)) v ++ leaves_elements path (suc i) es

trim_right-clean : (s : Bytes) → EndsClean s → trim_right s ≡ s
unfolding trim_right
trim_right-clean [] h = absurd h
trim_right-clean (c ∷ []) h = rw h refl
trim_right-clean (c ∷ d ∷ s) h = rw (trim_right-clean (d ∷ s) h) refl

trim_right-snoc : (a : Bytes) → trim_right (a ++ b'_' ∷ []) ≡ trim_right a
unfolding trim_right
trim_right-snoc [] = refl
trim_right-snoc (c ∷ a) = rw (trim_right-snoc a) refl

append-EndsClean : (a k : Bytes) → EndsClean k → EndsClean (a ++ k)
append-EndsClean [] k h = h
append-EndsClean (c ∷ []) [] h = absurd h
append-EndsClean (c ∷ []) (d ∷ k) h = h
append-EndsClean (c ∷ d ∷ a) k h = append-EndsClean (d ∷ a) k h

-- What a field is called so far: nothing, or keys and indices with underscores between them.
abbrev pub IsPath : Bytes → Type 0
IsPath [] = Unit
IsPath (c ∷ path) = IsCleanKey (c ∷ path)

IsCleanKey-IsPath : (k : Bytes) → IsCleanKey k → IsPath k
IsCleanKey-IsPath [] h = tt
IsCleanKey-IsPath (c ∷ k) h = h

extend-Clean : (path k : Bytes) → IsPath path → IsCleanKey k → IsCleanKey (extend path k)
extend-Clean [] k p h = h
extend-Clean (c ∷ path) k clean h =
    (clean.0, append-EndsClean (c ∷ path) (b'_' ∷ k) (append-EndsClean (b'_' ∷ []) k h.1))

trim-clean : (s : Bytes) → IsCleanKey s → trim s ≡ s
unfolding trim trim_left
trim-clean [] h = absurd h.0
trim-clean (c ∷ s) h = rw h.0 (trim_right-clean (c ∷ s) h.1)

-- The name of a member or an element, trimmed, is the path to it.
trim-below : (path k : Bytes) → IsPath path → IsCleanKey k → trim (below path k) ≡ extend path k
unfolding trim
trim-below [] [] p h = absurd h.0
trim-below [] (c ∷ k) p h =
    unfold trim_left in rw h.0 (trim_right-snoc (c ∷ k) ∙ trim_right-clean (c ∷ k) h.1)
trim-below (c ∷ path) k clean h =
    unfold trim_left in
    rw clean.0 (
      ap trim_right (sym (append_assoc (c ∷ path) (b'_' ∷ k) (b'_' ∷ [])))
      ∙ trim_right-snoc (c ∷ path ++ b'_' ∷ k)
      ∙ trim_right-clean (c ∷ path ++ b'_' ∷ k) (extend-Clean (c ∷ path) k clean h).1)

extend-IsPath : (path k : Bytes) → IsPath path → IsCleanKey k → IsPath (extend path k)
extend-IsPath path k p h = IsCleanKey-IsPath (extend path k) (extend-Clean path k p h)

digit-clean : (n : ℕ) (out : Bytes) → IsPath out → IsCleanKey ((b'0' + n % 10) ∷ out)
digit-clean n [] h = let e : (b'0' + n % 10 == b'_') ≡ false = ground arith in (e, e)
digit-clean n (d ∷ out) h = (ground arith, h.1)

digits_loop-clean :
    (fuel n : ℕ) (out : Bytes) → IsPath out → IsCleanKey (digits_loop (suc fuel) n out)
unfolding digits_loop
digits_loop-clean zero n out h =
    both-if IsCleanKey (ltb n 10) (digit-clean n out h) (digit-clean n out h)
digits_loop-clean (suc fuel) n out h =
    let digit = digit-clean n out h in
    both-if IsCleanKey (ltb n 10) digit (digits_loop-clean fuel (n / 10) _ digit)

itoa-clean : (i : ℕ) → IsCleanKey (itoa i)
unfolding itoa
itoa-clean i = digits_loop-clean i i [] tt

-- A call with a name that trims to a path.
mutual
  unfolding flatten leaves IsClean insert_all

  flatten_value :
      (name path : Bytes) (v : Json) (fields : Dict ℕ)
      → trim name ≡ path
      → IsPath path
      → IsClean v
      → flatten name v fields ≡ flattened (insert_all (leaves path v) fields)
  flatten_value name path (Json.object ms) fields e p h = rw e (members_lem path ms fields p h)
  flatten_value name path (Json.array es) fields e p h = rw e (elements_lem path 0 es fields p h)
  flatten_value name path (Json.number x) fields e p h = rw e refl
  flatten_value name path (Json.text s) fields e p h = refl
  flatten_value name path (Json.boolean b) fields e p h = refl
  flatten_value name path Json.null fields e p h = refl
  flatten_value name path Json.other fields e p h = absurd h

  members_lem :
      (path : Bytes) (ms : Members) (fields : Dict ℕ)
      → IsPath path
      → MembersClean ms
      → flatten_members path ms fields ≡ flattened (insert_all (leaves_members path ms) fields)
  members_lem path no_members fields p h = refl
  members_lem path (member k v ms) fields p (key, value, more) =
      rw
        (
          flatten_value (below path k) (extend path k) v fields (trim-below path k p key)
              (extend-IsPath path k p key) value,
          insert_all-append,
        )
        (members_lem path ms _ p more)

  elements_lem :
      (path : Bytes) (i : ℕ) (es : Elements) (fields : Dict ℕ)
      → IsPath path
      → ElementsClean es
      → flatten_elements path i es fields
        ≡ flattened (insert_all (leaves_elements path i es) fields)
  elements_lem path i no_elements fields p h = refl
  elements_lem path i (element v es) fields p (value, more) =
      let key = itoa-clean i in
      rw
        (
          flatten_value (below path (itoa i)) (extend path (itoa i)) v fields
              (trim-below path (itoa i) p key) (extend-IsPath path (itoa i) p key) value,
          insert_all-append,
        )
        (elements_lem path (suc i) es _ p more)

-- FlattenJSON of a decoded object whose keys neither begin nor end with an underscore, and are not
-- empty: there is no error, and the fields are the numbers in it, put into the map in their order,
-- each under its path: the keys and the indices that lead to it, with underscores between them.
pub flatten-leaves :
    (doc : Members)
    → MembersClean doc
    → flatten [] (Json.object doc) [] ≡ flattened (insert_all (leaves_members [] doc) [])
unfolding IsClean leaves
flatten-leaves doc h =
    flatten_value [] [] (Json.object doc) [] (unfold trim trim_left trim_right in refl) tt h
