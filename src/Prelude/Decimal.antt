-- ===== src/Prelude/Decimal.antt =====
-- `strconv.Itoa` of a number that is not negative.
use Prim.Native.Nat.{ℕ, zero, suc, ◌+◌, ◌/◌, ◌%◌}
use mathlib.Core.List.{[], ◌∷◌}
use vgo.Prelude.Tests.{ltb, if◌then◌else◌}
use vgo.Prelude.ByteString.{Bytes}

-- The digits of `n` before those in `out`: a round for each.
unfoldable pub digits_loop : (fuel n : ℕ) → Bytes → Bytes
digits_loop zero n out = out
digits_loop (suc fuel) n out =
    let digit = b'0' + n % 10 in
    let more = digits_loop fuel (n / 10) (digit ∷ out) in if ltb n 10 then digit ∷ out else more

-- A number has no more digits than its value and one.
unfoldable pub itoa : ℕ → Bytes
unfolding digits_loop
itoa n = digits_loop (suc n) n []
