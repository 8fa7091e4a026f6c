-- ===== src/Drill/Score.antt =====
-- tools/chaos/drill.py: what a drill that took is scored by, and which line states the cause.
use srechat.Prelude.{
  ℕ, ◌≡◌, refl, true, false, ◌&&◌, none, some, List, [], ◌∷◌, ◌++◌, arith, ◌+◌, Bool-cases, inl,
  inr,
}
use srechat.Drill.Faults.{Fault}
use srechat.Drill.{
  Result, passed, restore_unless_repaired, drill_taken, drill, watch, wait_for_conclusion, score,
  new_result, after_marker, last_after,
}

module _ {W : Type 0} (run : List ℕ → W → (ℕ × List ℕ) × W) (activity : ℕ → W → List ℕ × W)
    (time : W → ℕ) (sleep : ℕ → W → W) where
  -- A result whose third part of a pass holds anyway.
  abbrev Ends : Result → Type 0
  Ends r =
      (passed r ≡ (r.detected && r.diagnosed))
      × (r.repaired_by_agent ≡ false → r.restored_by_drill ≡ true)

  restored-Ends :
      (fault : Fault) (r : Result) (w : W)
      → Ends (restore_unless_repaired run activity time sleep fault r w).0
  unfolding passed
  restored-Ends fault r w = elim (Bool-cases r.repaired_by_agent) [
    | inl e ↦ rw e (ground arith, (λ h. ground (arith, h, e)))
    | inr e ↦ rw e (ground arith, (λ h. refl))
  ]

  taken-Ends :
      (fault : Fault) (started d g : ℕ) (r : Result) (w : W)
      → Ends (drill_taken run activity time sleep fault started d g r w).0
  taken-Ends fault started d g r w =
      let after = watch run activity time sleep d fault started (started + d) r w in
      let waited =
        wait_for_conclusion run activity time sleep g started (time after.1 + g) after.1 in
      let read = activity started waited in
      restored-Ends fault (score run activity time sleep fault read.0 after.0) read.1

  -- A drill whose fault took is passed exactly if the agent detected and named the fault: where the
  -- agent did not repair it, the drill has restored it, and that counts as well.
  pub drill-passed :
      (fault : Fault) (deadline_seconds grace_seconds : ℕ) (w : W)
      → (run fault.verify_broken (run fault.inject w).1).0.0 ≡ 0
      → let r = (drill run activity time sleep fault deadline_seconds grace_seconds w).0 in
        (passed r ≡ (r.detected && r.diagnosed))
        × (r.repaired_by_agent ≡ false → r.restored_by_drill ≡ true)
  unfolding drill
  drill-passed fault deadline_seconds grace_seconds w h = rw h (
      taken-Ends fault (time w) deadline_seconds grace_seconds
        (record new_result { injected = true }) (run fault.verify_broken (run fault.inject w).1).1)

-- The cause is read from the last line that has the marker, whatever stands before it.
pub last_after-append :
    (marker line said : List ℕ) (before later : List (List ℕ))
    → after_marker marker line ≡ some said
    → last_after marker later ≡ none
    → last_after marker (before ++ line ∷ later) ≡ some said
unfolding last_after
last_after-append marker line said [] later h k = rw k h
last_after-append marker line said (l ∷ before) later h k =
    rw (last_after-append marker line said before later h k) refl
