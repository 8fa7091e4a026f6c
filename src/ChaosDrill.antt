-- ===== src/ChaosDrill.antt =====
-- agent/chaos_drill.py: the gentle and the hard drill on region 0. `W` is the state of the fleet;
-- `healthy` probes a host, `run` runs a command, `sleep` waits and `time` is the clock in seconds.
-- What is said in chat is left out but for its verdict.
mod Tests
pub mod Waiting
use srechat.Prelude.{
  ℕ, zero, suc, ◌+◌, Bool, true, false, ◌&&◌, ◌||◌, List, [], ◌∷◌, ◌++◌, ltb, if◌then◌else◌,
  is_empty,
}
use srechat.Text.{codes, text_eq, contains, lower, strip}

module _ {W : Type 0} (healthy : List ℕ → W → Bool × W) (run : List (List ℕ) → W → List ℕ × W)
    (time : W → ℕ) (sleep : ℕ → W → W) where
  -- The loop of `wait_until` for a healthy host, with fuel; the last look is after the deadline.
  unfoldable pub wait_until : ℕ → List ℕ → ℕ → W → Bool × W
  wait_until zero host deadline w = healthy host w
  wait_until (suc fuel) host deadline w =
      let (ok, w') = healthy host w in
      let rest = wait_until fuel host deadline (sleep 3 w') in
      if ltb (time w) deadline then (if ok then (true, w') else rest) else healthy host w

  -- `drill_gentle`: the exit code.
  unfoldable pub drill_gentle : List ℕ → List ℕ → W → ℕ × W
  unfolding wait_until
  drill_gentle deploy_dir host w =
      let (before, w₁) = healthy host w in
      let (_, w₂) =
        run
          (codes "sudo"
            ∷ codes "docker"
            ∷ codes "compose"
            ∷ codes "--env-file"
            ∷ (deploy_dir ++ codes "/deploy/.env")
            ∷ codes "-f"
            ∷ (deploy_dir ++ codes "/deploy/docker-compose.prod.yml")
            ∷ codes "restart"
            ∷ codes "app"
            ∷ [])
          w₁ in
      let (healed, w₃) = wait_until 90 host (time w₂ + 90) w₂ in
      (if before && healed then 0 else 1, w₃)

  -- `all(healthy(r["host"]) for r in REGIONS[1:])`: it stops at the first that is not.
  unfoldable pub all_healthy : List (List ℕ) → W → Bool × W
  all_healthy [] w = (true, w)
  all_healthy (host ∷ hosts) w =
      let (ok, w') = healthy host w in
      let rest = all_healthy hosts w' in if ok then rest else (false, w')

  -- `drill_hard`: the exit code.
  unfoldable pub drill_hard : List ℕ → List (List ℕ) → W → ℕ × W
  unfolding wait_until all_healthy
  drill_hard host peers w =
      let (_, w₁) = run (codes "sudo" ∷ codes "wg-quick" ∷ codes "down" ∷ codes "wg0" ∷ []) w in
      let (peers_ok, w₂) = all_healthy peers w₁ in
      let (_, w₃) =
        run (codes "sudo" ∷ codes "wg-quick" ∷ codes "up" ∷ codes "wg0" ∷ []) (sleep 60 w₂) in
      let (healed, w₄) = wait_until 90 host (time w₃ + 90) w₃ in
      let (mesh, w₅) = run (codes "sudo" ∷ codes "wg" ∷ codes "show" ∷ []) w₄ in
      (if peers_ok && healed && contains (codes "peer") (lower mesh) then 0 else 1, w₅)

  -- `main` on its argument, empty where there is none.
  unfoldable pub main : List ℕ → List ℕ → List ℕ → List (List ℕ) → W → ℕ × W
  unfolding drill_gentle drill_hard
  main argument deploy_dir host peers w =
      let mode = lower (strip (if is_empty argument then codes "gentle" else argument)) in
      if text_eq mode (codes "gentle")
      then drill_gentle deploy_dir host w
      else if text_eq mode (codes "hard")
      then drill_hard host peers w
      else (2, w)
