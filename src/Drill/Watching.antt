-- ===== src/Drill/Watching.antt =====
-- tools/chaos/drill.py: the loop up to the deadline ends.
use srechat.Prelude.{
  ℕ, zero, suc, ◌+◌, ◌≤◌, ◌≡◌, refl, ap, true, false, List, arith, ltb, ◌==◌, if◌then◌else◌,
}
use srechat.Drill.Faults.{Fault}
use srechat.Drill.{Result, poll, watch}

module _ {W : Type 0} (run : List ℕ → W → (ℕ × List ℕ) × W) (activity : ℕ → W → List ℕ × W)
    (time : W → ℕ) (sleep : ℕ → W → W)
    (run_takes : (command : List ℕ) (w : W) → time w ≤ time (run command w).1)
    (activity_takes : (started : ℕ) (w : W) → time w ≤ time (activity started w).1)
    (sleep_takes : (n : ℕ) (w : W) → time w + n ≤ time (sleep n w)) where
  abbrev polled : Fault → ℕ → Result → W → Result × (ℕ × W)
  polled = poll run activity time sleep

  poll_takes :
      (fault : Fault) (started : ℕ) (r : Result) (w : W)
      → time w + 20 ≤ time (polled fault started r w).1.1
  poll_takes fault started r w = omega (
    arith,
    run_takes fault.verify_broken (activity started (sleep 20 w)).1,
    activity_takes started (sleep 20 w),
    sleep_takes 20 w,
  )

  abbrev watched : ℕ → Fault → ℕ → ℕ → Result → W → Result × W
  watched = watch run activity time sleep

  late : (w : W) (deadline : ℕ) → deadline ≤ time w → ltb (time w) deadline ≡ false
  late w deadline h = ground arith

  watch_late :
      (fuel : ℕ) (fault : Fault) (started deadline : ℕ) (r : Result) (w : W)
      → deadline ≤ time w
      → watched fuel fault started deadline r w ≡ (r, w)
  unfolding watch
  watch_late zero fault started deadline r w h = refl
  watch_late (suc fuel) fault started deadline r w h = rw (late w deadline h) refl

  none_more : (fuel : ℕ) → suc fuel ≤ zero → ⊥
  none_more fuel l = omega (arith, l)

  -- The loop up to the deadline ends by itself: with at least as many rounds of fuel as seconds are
  -- left, more fuel changes nothing, where commands do not turn the clock back and sleeping takes its
  -- time.
  pub watch_enough :
      (fuel more : ℕ) (fault : Fault) (started deadline : ℕ) (r : Result) (w : W)
      → deadline ≤ time w + fuel
      → fuel ≤ more
      → watched more fault started deadline r w ≡ watched fuel fault started deadline r w
  unfolding watch
  watch_enough zero more fault started deadline r w h l =
      watch_late more fault started deadline r w (omega (arith, h))
  watch_enough (suc fuel) zero fault started deadline r w h l = elim (none_more fuel l) [ ]
  watch_enough (suc fuel) (suc more) fault started deadline r w h l =
      let p = polled fault started r w in
      let rest =
        watch_enough fuel more fault started deadline p.0 p.1.1
          (omega (arith, h, poll_takes fault started r w)) (omega (arith, l)) in
      ap
        (λ (t : Result × W).
          if ltb (time w) deadline
          then (if p.1.0 == 0 then t else (record p.0 { repaired_by_agent = true }, p.1.1))
          else (r, w))
        rest
