-- ===== src/Alarm/Counter/Window.antt =====
-- Runs of reports that follow one another inside the window.
use vgo.Prelude.{
  ℕ, suc, ◌+◌, ◌*◌, ◌≤◌, ◌≡◌, ◌≢◌, refl, true, false, List, [], ◌∷◌, length, arith, if◌then◌else◌,
  ℕ_discrete,
}
use vgo.Prelude.Int.{ℤ, pos, ◌+ℤ◌, ltb_ℤ}
use vgo.Alarm.Process.{time_sub}
use vgo.Alarm.Counter.{Counter, observe}

-- The counter after a run of reports, and how many of them alarmed the users.
unfoldable pub observe_all : Counter → List ℤ → Counter × ℕ
observe_all c [] = (c, 0)
observe_all c (now ∷ times) =
    let (c', fired) = observe c now in
    let (d, n) = observe_all c' times in (d, if fired then suc n else n)

-- Each report comes no later than `d` after the one before it.
abbrev pub InWindow : ℤ → ℤ → List ℤ → Type 0
InWindow d last [] = Unit {0}
InWindow d last (now ∷ times) = (ltb_ℤ d (time_sub now last) ≡ false) × InWindow d now times

-- A counter below its limit `k + 1`.
pub record Holds (c : Counter) (k n : ℕ) : Type 0 where
  pub limit : c.limit ≡ pos (suc k)
  pub count : c.now_count ≡ pos n
  pub below : n ≤ k

-- What a run of reports does to a counter that holds `n`.
pub record Ran (c : Counter) (k n : ℕ) (times : List ℤ) (out : Counter × ℕ) : Type 0 where
  pub left : ℕ
  pub holds : Holds out.0 k left
  pub total : out.1 * suc k + left ≡ n + length times
  pub duration : out.0.duration ≡ c.duration
  pub output : out.0.output ≡ c.output

pub observe_fires :
    (c : Counter) (k n : ℕ) (now : ℤ)
    → Holds c k n
    → ltb_ℤ c.duration (time_sub now c.last) ≡ false
    → n ≡ k
    → observe c now ≡ (record c { now_count = pos 0; last = now }, true)
unfolding observe ◌+ℤ◌
observe_fires c k n now h w e = ground (arith, h.limit, h.count)

pub observe_counts :
    (c : Counter) (k n : ℕ) (now : ℤ)
    → Holds c k n
    → ltb_ℤ c.duration (time_sub now c.last) ≡ false
    → n ≢ k
    → observe c now ≡ (record c { now_count = pos (suc n); last = now }, false)
unfolding observe ◌+ℤ◌
observe_counts c k n now h w e = ground (arith, h.limit, h.count)

pub observe_all-Ran :
    (c : Counter) (k n : ℕ) (times : List ℤ)
    → Holds c k n
    → InWindow c.duration c.last times
    → Ran c k n times (observe_all c times)
unfolding observe_all
observe_all-Ran c k n [] h w = record {
  left = n;
  holds = h;
  total = omega arith;
  duration = refl;
  output = refl;
}
observe_all-Ran c k n (now ∷ times) h w = elim (ℕ_discrete n k) [
  | yes e ↦
      let r =
        observe_all-Ran (record c { now_count = pos 0; last = now }) k 0 times
          (record { limit = h.limit; count = refl; below = omega arith }) w.1 in
      rw (observe_fires c k n now h w.0 e) (record {
        left = r.left;
        holds = r.holds;
        total = omega (arith, r.total);
        duration = r.duration;
        output = r.output;
      })
  | no ne ↦
      let r =
        observe_all-Ran (record c { now_count = pos (suc n); last = now }) k (suc n) times
          (record { limit = h.limit; count = refl; below = omega arith }) w.1 in
      rw (observe_counts c k n now h w.0 ne) (record {
        left = r.left;
        holds = r.holds;
        total = omega (arith, r.total);
        duration = r.duration;
        output = r.output;
      })
]
