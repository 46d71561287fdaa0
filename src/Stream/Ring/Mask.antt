-- ===== src/Stream/Ring/Mask.antt =====
-- The mask of a ring whose size is a power of two takes the remainder by that size.
use vgo.Prelude.{
  ℕ, zero, suc, ◌+◌, ◌-◌, ◌*◌, ◌/◌, ◌%◌, ◌^◌, ◌≤◌, ◌<◌, ◌≡◌, refl, arith, ◌∙◌, ap, sym, dec_lt,
}
use vgo.Stream.Ring.{bit_and}
use native.Mathlib.Nat.{
  div-add-mod, add-mul-mod_self_left, mod-eq_of_lt, mod-lt, mul-le-mul_left, mul_assoc,
}

mod_double : (x p : ℕ) → 0 < p → x % 2 + 2 * ((x / 2) % p) ≡ x % (2 * p)
mod_double x p h =
    let inner = mod-lt (x / 2) h in
    let quotient = (x / 2) / p in
    let split : x ≡ (x % 2 + 2 * ((x / 2) % p)) + 2 * p * quotient =
      (let outer = div-add-mod (x / 2) p in
        let twice : 2 * p * quotient ≡ 2 * (p * quotient) = mul_assoc 2 p quotient in
        omega arith) in
    sym (
      ap (λ y. y % (2 * p)) split
      ∙ add-mul-mod_self_left _ (2 * p) quotient
      ∙ mod-eq_of_lt (omega arith))

bit_and-zero : (w x : ℕ) → bit_and w x 0 ≡ 0
unfolding bit_and
bit_and-zero zero x = refl
bit_and-zero (suc w) x = omega (arith, bit_and-zero w (x / 2))

pub pow_pos : (k : ℕ) → 0 < 2 ^ k
pow_pos zero = omega arith
pow_pos (suc k) = omega (arith, pow_pos k)

pub bit_and-mask : (w k x : ℕ) → k ≤ w → bit_and w x (2 ^ k - 1) ≡ x % 2 ^ k
unfolding bit_and
bit_and-mask w zero x h = omega (arith, bit_and-zero w x)
bit_and-mask zero (suc k) x h = elim h [ ]
bit_and-mask (suc w) (suc k) x h =
    let positive = pow_pos k in
    let low : (2 ^ suc k - 1) % 2 ≡ 1 = omega arith in
    let high : (2 ^ suc k - 1) / 2 ≡ 2 ^ k - 1 = omega arith in
    let rest = bit_and-mask w k (x / 2) (omega arith) in
    let grown : 2 * 2 ^ k ≡ 2 ^ suc k = omega arith in
    let head : x % 2 * 1 ≡ x % 2 = omega arith in
    rw (low, high, rest, head) (mod_double x (2 ^ k) positive ∙ ap (λ y. x % y) grown)

-- Two numbers less than `n` apart with the same remainder by `n` are equal.
pub mod_inj : (n i j : ℕ) → i ≤ j → j < i + n → i % n ≡ j % n → i ≡ j
mod_inj n i j le lt e =
    let at_i = div-add-mod i n in
    let at_j = div-add-mod j n in
    elim (dec_lt (i / n) (j / n)) [
      | yes above ↦
          let m = mul-le-mul_left n above in
          let step : n * suc (i / n) ≡ n * (i / n) + n = omega arith in omega arith
      | no below ↦
          let flipped : j / n ≤ i / n = omega arith in
          let m = mul-le-mul_left n flipped in omega arith
    ]
