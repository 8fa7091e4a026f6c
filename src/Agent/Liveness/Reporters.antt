-- ===== src/Agent/Liveness/Reporters.antt =====
-- agent/sre_agent.py: how many agents page for a region.
use srechat.Prelude.{
  ℕ, ◌+◌, ◌%◌, ◌<◌, ◌≡◌, refl, Bool, true, false, not, arith, zero, suc, if◌then◌else◌,
}
use srechat.Dict.{Dict}
use srechat.Agent.Liveness.{agent_alive, primary_reporter}

quiet_then : (b : Bool) → (if b then false else true) ≡ not b
quiet_then true = refl
quiet_then false = refl

too_far : (n : ℕ) → suc (suc (suc n)) < 3 → ⊥
too_far n h = omega (arith, h)

-- Of three regions with the target among them, the next one around the ring always reports, and the
-- one after it reports exactly if it has not heard from the next one: one agent pages, or two where
-- the second cannot tell that the first is alive, and never none.
pub primary_reporter_ring :
    (target stale now now' : ℕ) (seen seen' : Dict ℕ)
    → target < 3
    → (primary_reporter stale now seen 3 ((target + 1) % 3) target ≡ true)
      × (primary_reporter stale now' seen' 3 ((target + 2) % 3) target
          ≡ not (agent_alive stale now' seen' ((target + 1) % 3)))
unfolding primary_reporter
primary_reporter_ring zero stale now now' seen seen' h =
    (refl, quiet_then (agent_alive stale now' seen' 1))
primary_reporter_ring (suc zero) stale now now' seen seen' h =
    (refl, quiet_then (agent_alive stale now' seen' 2))
primary_reporter_ring (suc (suc zero)) stale now now' seen seen' h =
    (refl, quiet_then (agent_alive stale now' seen' 0))
primary_reporter_ring (suc (suc (suc n))) stale now now' seen seen' h = elim (too_far n h) [ ]
