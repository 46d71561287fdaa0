-- ===== src/Prelude/Outcome.antt =====
-- How a call ends: it returns, it panics, or the fuel of a loop runs out. That the fuel does not run
-- out is a theorem about each loop.
use mathlib.Core.Path.{◌≡◌, refl}
use mathlib.Core.Logic.{◌≢◌}
use mathlib.Core.Bool.{Bool, true, false}
use vgo.Prelude.Tests.{if◌then◌else◌, both-if}

pub data Outcome {ℓ} (A : Type ℓ) : Type ℓ where
  returned : A → Outcome A
  panicked : Outcome A
  out_of_fuel : Outcome A

abbrev pub then_call {ℓ κ} : {A : Type ℓ} {B : Type κ} → Outcome A → (A → Outcome B) → Outcome B
then_call (returned a) f = f a
then_call panicked f = panicked
then_call out_of_fuel f = out_of_fuel

pub returned_inj {ℓ} : {A : Type ℓ} {a b : A} → returned a ≡ returned b → a ≡ b
returned_inj e = cc

pub if_panicked_inj {ℓ} :
    {A : Type ℓ} (b : Bool) {a c : A} → (if b then panicked else returned a) ≡ returned c → a ≡ c
if_panicked_inj true e = cc
if_panicked_inj false e = cc

-- The fuel was enough.
pub record Ends {ℓ} {A : Type ℓ} (r : Outcome A) : Type ℓ where
  pub not_stuck : r ≢ out_of_fuel

module _ {ℓ} {A : Type ℓ} where
  pub returned-Ends : (a : A) → Ends (returned a)
  returned-Ends a = record { not_stuck = λ e. cc }

  pub panicked-Ends : Ends {A = A} panicked
  panicked-Ends = record { not_stuck = λ e. cc }

  pub if-Ends : (b : Bool) {x y : Outcome A} → Ends x → Ends y → Ends (if b then x else y)
  if-Ends b hx hy = both-if Ends b hx hy

pub then_call-Ends {ℓ κ} :
    {A : Type ℓ} {B : Type κ} (r : Outcome A) (f : A → Outcome B)
    → Ends r
    → ((a : A) → r ≡ returned a → Ends (f a))
    → Ends (then_call r f)
then_call-Ends (returned a) f h k = k a refl
then_call-Ends panicked f h k = panicked-Ends
then_call-Ends out_of_fuel f h k = absurd (h.not_stuck refl)
