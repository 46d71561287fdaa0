-- ===== src/Prelude/ByteString.antt =====
-- Byte strings, their equality (`bytes.Equal`, `==` of strings) and order (`bytes.Compare`).
use Prim.Native.Nat.{ℕ}
use Prim.Native.Char.{code}
use Prim.Native.String.{String}
use mathlib.Core.Path.{◌≡◌, refl}
use mathlib.Core.Logic.{◌↔◌}
use mathlib.Core.Bool.{Bool, true, false, ◌&&◌, ◌||◌}
use mathlib.Core.List.{List, [], ◌∷◌}
use native.Mathlib.Omega.{arith}
use vgo.Prelude.Tests.{ltb, ◌==◌}

abbrev pub Bytes : Type 0
Bytes = List ℕ

-- The bytes of an ASCII literal.
abbrev pub codes : String → Bytes
codes String.[] = []
codes (String.◌∷◌ c s) = code c ∷ codes s

-- Go's `==`: the first bytes agree, and so do the rests.
unfoldable pub equal : (s t : Bytes) → Bool
equal [] [] = true
equal [] (_ ∷ _) = false
equal (_ ∷ _) [] = false
equal (b ∷ s) (c ∷ t) = b == c && equal s t

pub equal_iff : (s t : Bytes) → equal s t ≡ true ↔ s ≡ t
unfolding equal
equal_iff [] [] = ground arith
equal_iff [] (c ∷ t) = ground arith
equal_iff (b ∷ s) [] = ground arith
equal_iff (b ∷ s) (c ∷ t) = ground (arith, equal_iff s t)

pub equal_self : (a : Bytes) → equal a a ≡ true
equal_self a = (equal_iff a a).1 refl

pub equal_comm : (a b : Bytes) → equal a b ≡ equal b a
equal_comm a b = ground (arith, equal_iff a b, equal_iff b a)

-- `bytes.Compare(a, b) < 0`: lexicographic, a proper prefix is less.
unfoldable pub before : Bytes → Bytes → Bool
before [] [] = false
before [] (y ∷ ys) = true
before (x ∷ xs) [] = false
before (x ∷ xs) (y ∷ ys) = ltb x y || (x == y && before xs ys)

-- The list holds this string.
unfoldable pub contains : List Bytes → Bytes → Bool
contains [] s = false
contains (x ∷ xs) s = equal x s || contains xs s
