-- ===== src/Chaos/Waiting.antt =====
-- tools/chaos/chaos.py: the loop of `wait_for` ends.
use srechat.Prelude.{
  ℕ, zero, suc, ◌+◌, ◌≤◌, ◌≡◌, refl, ap, false, arith, ltb, if◌then◌else◌, Outcome,
}
use srechat.Chaos.{Act, Look, Looked, Ended, ends, round_of, wait_for}

module _ {W : Type 0} (act : Act → W → Outcome (Unit {0}) × W) (look : Look → W → Looked × W)
    (clock : W → ℕ) (sleep : W → W) (look_takes : (l : Look) (w : W) → clock w ≤ clock (look l w).1)
    (sleep_takes : (w : W) → clock w + 4 ≤ clock (sleep w)) where
  abbrev waited : ℕ → Look → ℕ → W → Ended W
  waited = wait_for act look clock sleep

  late : (w : W) (deadline : ℕ) → deadline ≤ clock w → ltb (clock w) deadline ≡ false
  late w deadline h = ground arith

  waited-late :
      (fuel : ℕ) (l : Look) (deadline : ℕ) (w : W)
      → deadline ≤ clock w
      → waited fuel l deadline w ≡ ends false w
  unfolding wait_for
  waited-late zero l deadline w h = refl
  waited-late (suc fuel) l deadline w h = rw (late w deadline h) refl

  none_more : (fuel : ℕ) → suc fuel ≤ zero → ⊥
  none_more fuel l = omega (arith, l)

  -- The loop of `wait_for` ends by itself: with at least as many rounds of fuel as tenths of a second are
  -- left, more fuel changes nothing, where looking does not turn the clock back and sleeping takes its
  -- 0.4 seconds.
  pub wait_for_enough :
      (fuel more : ℕ) (l : Look) (deadline : ℕ) (w : W)
      → deadline ≤ clock w + fuel
      → fuel ≤ more
      → waited more l deadline w ≡ waited fuel l deadline w
  unfolding wait_for
  wait_for_enough zero more l deadline w h le = waited-late more l deadline w (omega (arith, h))
  wait_for_enough (suc fuel) zero l deadline w h le = elim (none_more fuel le) [ ]
  wait_for_enough (suc fuel) (suc more) l deadline w h le =
      let asked = look l w in
      ap
        (λ (t : Ended W).
          if ltb (clock w) deadline then round_of act look clock sleep t asked else ends false w)
        (wait_for_enough fuel more l deadline (sleep asked.1)
          (omega (arith, h, look_takes l w, sleep_takes asked.1)) (omega (arith, le)))
