-- ===== src/Points/Binary/RoundTrip.antt =====
-- A marshalled point is read back.
use vgo.Prelude.{ℕ, ◌<◌, ◌≡◌, refl, ap, Bytes, [], ◌∷◌, ◌++◌, some, >>=-eq-some, length, arith}
use vgo.Points.Binary.{
  Point, TimeCodec, put_uint32, get_uint32, slice, marshal_binary, or_now, unmarshal_binary,
}

-- The standard library reads back the times that it writes.
pub record TimeLaws (codec : TimeCodec) : Type 0 where
  pub decode-encode :
      (t : codec.Time) {b : Bytes} → codec.encode t ≡ some b → codec.decode b ≡ some t

get-put_uint32 :
    (n : ℕ) (rest : Bytes) → n < 4294967296 → get_uint32 (put_uint32 n ++ rest) ≡ some (n, rest)
unfolding get_uint32 put_uint32
get-put_uint32 n rest h = ap (λ (k : ℕ). some (k, rest)) (omega arith)

slice-append : (s rest : Bytes) → slice (length s) (s ++ rest) ≡ some (s, rest)
unfolding slice
slice-append [] rest = refl
slice-append (c ∷ s) rest = rw (slice-append s rest) refl

-- A point whose key and field text are shorter than 2^32 bytes is read back as it was marshalled,
-- whatever the clock says.
pub unmarshal-marshal :
    (codec : TimeCodec) (now : codec.Time) (p : Point codec.Time) (b : Bytes)
    → TimeLaws codec
    → length p.key < 4294967296
    → length p.fields < 4294967296
    → marshal_binary codec p ≡ some b
    → unmarshal_binary codec now b ≡ some p
unfolding marshal_binary unmarshal_binary or_now
unmarshal-marshal codec now p b laws small_key small_fields h =
    let (tb, e, is) = >>=-eq-some (codec.encode p.time) _ h in
    rw (← some_inj is) (
      rw
        (
          get-put_uint32 (length p.key) _ small_key,
          slice-append p.key _,
          get-put_uint32 (length p.fields) _ small_fields,
          slice-append p.fields tb,
          laws.decode-encode p.time e,
        )
        refl)
  where
    some_inj : {x y : Bytes} → some x ≡ some y → x ≡ y
    some_inj e = cc
