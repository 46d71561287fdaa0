-- ===== src/Points/Binary.antt =====
-- misc/points.go: `MarshalBinary` and `UnmarshalBinary` of a point.
-- The binary form of a time is the standard library's, taken as a parameter. The caches and the
-- text of the timestamp are not part of the binary form. A slice that leaves the buffer is the
-- run-time panic, `none`: the buffer has no spare capacity.
pub mod RoundTrip
use vgo.Prelude.{
  ℕ, zero, suc, ◌+◌, ◌*◌, ◌/◌, ◌%◌, ◌^◌, Bytes, Bool, true, false, List, [], ◌∷◌, ◌++◌, Option,
  none, some, ◌>>=◌, length,
}

-- `point`, without `ts`, the caches and `data`, which only the accessors Data and SetData touch.
pub record Point (Time : Type 0) : Type 0 where
  pub time : Time
  pub key : Bytes
  pub fields : Bytes

-- `time.Time.MarshalBinary` and `UnmarshalBinary`; `none` is their error.
pub record TimeCodec : Type 1 where
  pub Time : Type 0
  pub encode : Time → Option Bytes
  pub decode : Bytes → Option Time

-- `binary.BigEndian.PutUint32(b, uint32(n))`.
unfoldable pub put_uint32 : ℕ → Bytes
put_uint32 n = (n / 2 ^ 24 % 256) ∷ (n / 2 ^ 16 % 256) ∷ (n / 2 ^ 8 % 256) ∷ (n % 256) ∷ []

-- `binary.BigEndian.Uint32(b[:4])`, with what follows.
unfoldable pub get_uint32 : Bytes → Option (ℕ × Bytes)
get_uint32 (a ∷ b ∷ c ∷ d ∷ rest) = some (a * 2 ^ 24 + b * 2 ^ 16 + c * 2 ^ 8 + d, rest)
get_uint32 _ = none

-- `b[i : i+n]`, with what follows.
unfoldable pub slice : ℕ → Bytes → Option (Bytes × Bytes)
slice zero b = some ([], b)
slice (suc n) [] = none
slice (suc n) (c ∷ b) = slice n b >>= λ (out, rest). some (c ∷ out, rest)

module _ (codec : TimeCodec) where
  open codec use {Time, encode, decode}

  unfoldable pub marshal_binary : Point Time → Option Bytes
  marshal_binary p = do
    tb ← encode p.time
    some
        (put_uint32 (length p.key) ++ (p.key ++ (put_uint32 (length p.fields) ++ (p.fields ++ tb))))

  -- An error of the time's decoder is not looked at, and leaves `time.Now()`.
  unfoldable pub or_now : Time → Option Time → Time
  or_now now none = now
  or_now now (some t) = t

  unfoldable pub unmarshal_binary : Time → Bytes → Option (Point Time)
  unmarshal_binary now b = do
    (key_len, b₁) ← get_uint32 b
    (key, b₂) ← slice key_len b₁
    (field_len, b₃) ← get_uint32 b₂
    (fields, b₄) ← slice field_len b₃
    some (record { time = or_now now (decode b₄); key = key; fields = fields })
