-- ===== src/ChaosDrill/Waiting.antt =====
-- agent/chaos_drill.py: what `wait_until` answers.
use srechat.Prelude.{
  ℕ, zero, suc, ◌+◌, ◌≤◌, ◌≡◌, refl, ap, Bool, true, false, arith, List, ltb, if◌then◌else◌,
}
use srechat.ChaosDrill.{wait_until}

module _ {W : Type 0} (healthy : List ℕ → W → Bool × W) (run : List (List ℕ) → W → List ℕ × W)
    (time : W → ℕ) (sleep : ℕ → W → W)
    (healthy_takes : (host : List ℕ) (w : W) → time w ≤ time (healthy host w).1)
    (sleep_takes : (n : ℕ) (w : W) → time w + n ≤ time (sleep n w)) where
  abbrev waited : ℕ → List ℕ → ℕ → W → Bool × W
  waited = wait_until healthy run time sleep

  late : (w : W) (deadline : ℕ) → deadline ≤ time w → ltb (time w) deadline ≡ false
  late w deadline h = ground arith

  waited-late :
      (fuel : ℕ) (host : List ℕ) (deadline : ℕ) (w : W)
      → deadline ≤ time w
      → waited fuel host deadline w ≡ healthy host w
  unfolding wait_until
  waited-late zero host deadline w h = refl
  waited-late (suc fuel) host deadline w h = rw (late w deadline h) refl

  none_more : (fuel : ℕ) → suc fuel ≤ zero → ⊥
  none_more fuel l = omega (arith, l)

  -- `wait_until` ends by itself: with at least as many rounds of fuel as seconds are left, more fuel
  -- changes nothing, where probing does not turn the clock back and sleeping takes its time.
  pub wait_until_enough :
      (fuel more : ℕ) (host : List ℕ) (deadline : ℕ) (w : W)
      → deadline ≤ time w + fuel
      → fuel ≤ more
      → waited more host deadline w ≡ waited fuel host deadline w
  unfolding wait_until
  wait_until_enough zero more host deadline w h l =
      waited-late more host deadline w (omega (arith, h))
  wait_until_enough (suc fuel) zero host deadline w h l = elim (none_more fuel l) [ ]
  wait_until_enough (suc fuel) (suc more) host deadline w h l =
      ap
        (λ (t : Bool × W).
          if ltb (time w) deadline
          then (if (healthy host w).0 then (true, (healthy host w).1) else t)
          else healthy host w)
        (wait_until_enough fuel more host deadline (sleep 3 (healthy host w).1)
          (omega (arith, h, healthy_takes host w, sleep_takes 3 (healthy host w).1))
          (omega (arith, l)))
