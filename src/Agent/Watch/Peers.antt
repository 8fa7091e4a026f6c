-- ===== src/Agent/Watch/Peers.antt =====
-- agent/sre_agent.py: the looks of `watch_once` at the other agents, at TrustedRouter's gateway and at the
-- restarts of the app's container.
pub mod Silent
use srechat.Prelude.{
  ℕ, ◌+◌, ◌-◌, Bool, true, false, not, ◌&&◌, Option, none, some, List, [], ◌∷◌, ◌++◌, ltb, ◌==◌,
  if◌then◌else◌, within, Outcome, returned, raised,
}
use srechat.Text.{codes, show}
use srechat.Dict
use srechat.Dict.{Dict, get-put}
use srechat.Agent.Watch.{Watch, Effect, alert_effect, set_status, transition}

-- A look at another agent: its region and cloud, when it was last seen, and whether this agent is the
-- primary reporter of its region.
pub record AgentLook : Type 0 where
  pub index : ℕ
  pub cloud : List ℕ
  pub last : Option ℕ
  pub is_primary : Bool

abbrev pub agent_key : ℕ → List ℕ
agent_key index = codes "agent-" ++ show index

abbrev pub agent_name : AgentLook → List ℕ
agent_name look =
    codes "sre-agent-" ++ (show look.index ++ (codes " (" ++ (look.cloud ++ codes ")")))

abbrev pub agent_recovered : AgentLook → List ℕ
agent_recovered look = codes "RECOVERED: " ++ (agent_name look ++ codes " is reporting again.")

abbrev pub agent_down : AgentLook → ℕ → List ℕ
agent_down look age =
    codes "AGENT DOWN: "
    ++ (agent_name look
        ++ (codes " has not checked in for "
            ++ (show age ++ codes "s. Its node may be up while the agent is dead.")))

-- `_watch_state.setdefault(key, "up")`.
abbrev pub set_default_up : List ℕ → Option Bool → Watch → Watch
set_default_up key none s = set_status key true s
set_default_up key (some was) s = s

module _ (flap_window flaps_to_report started liveness_grace stale : ℕ)
    (is_open : List ℕ → Bool) where
  -- A look at an agent that was last seen, or counts as seen, at `last`.
  abbrev pub look_at_seen : AgentLook → ℕ → ℕ → Watch → List Effect × Watch
  look_at_seen look last now s =
      let key = agent_key look.index in
      let fresh = within now last stale in
      let told =
        transition flap_window flaps_to_report is_open key fresh (agent_recovered look)
          (agent_down look (now - last)) true now s in
      if not fresh && not look.is_primary then ([], set_status key false s) else told

  abbrev pub look_at_last : AgentLook → Option ℕ → ℕ → Watch → List Effect × Watch
  look_at_last look (some last) now s = look_at_seen look last now s
  look_at_last look none now s =
      let key = agent_key look.index in
      let told = look_at_seen look started now (set_default_up key (Dict.get s.status key) s) in
      if within now started liveness_grace then ([], s) else told

  unfoldable pub watch_agent : AgentLook → ℕ → Watch → List Effect × Watch
  unfolding transition
  watch_agent look now s = look_at_last look look.last now s

  -- The looks at one agent, one after another.
  unfoldable pub agent_looks : AgentLook → List ℕ → Watch → List Effect
  unfolding watch_agent
  agent_looks look [] s = []
  agent_looks look (now ∷ times) s =
      let (said, s') = watch_agent look now s in said ++ agent_looks look times s'

-- The gateway, where this agent is actionable; a request that raises counts as down.
abbrev pub is_serving : Outcome ℕ → Bool
is_serving (raised exc) = false
is_serving (returned status) = status == 200

unfoldable pub watch_gateway :
    ℕ → ℕ → (List ℕ → Bool) → Bool → Outcome ℕ → ℕ → Watch → List Effect × Watch
unfolding transition
watch_gateway flap_window flaps_to_report is_open actionable answer now s =
    let told =
      transition flap_window flaps_to_report is_open (codes "trustedrouter") (is_serving answer)
        (codes "RECOVERED: TrustedRouter's gateway is serving again.")
        (codes
          "TRUSTEDROUTER DOWN: api.trustedrouter.com is not serving /v1/models. Ask me for `tr errors` and `tr revisions` to triage.")
        true now s in
    if actionable then told else ([], s)

abbrev pub restart_loop : ℕ → List ℕ → ℕ → ℕ → List ℕ
restart_loop own cloud more restarts =
    codes "APP RESTART LOOP in region "
    ++ (show own
        ++ (codes " ("
            ++ (cloud
                ++ (codes "): container has restarted "
                    ++ (show more
                        ++ (codes " times since the last check ("
                            ++ (show restarts
                                ++ codes " total). It is crashing, not merely slow.")))))))

-- The count of restarts, which may not be readable, against the count of the last look.
abbrev pub restarts_since : ℕ → List ℕ → Option ℕ → ℕ → List Effect
restarts_since own cloud none restarts = []
restarts_since own cloud (some previous) restarts =
    if ltb (previous + 2) restarts
    then alert_effect (restart_loop own cloud (restarts - previous) restarts)
        (codes "restart-loop:" ++ show own) false true
      ∷ []
    else []

abbrev pub watch_restarts : ℕ → List ℕ → Outcome ℕ → Option ℕ → List Effect × Option ℕ
watch_restarts own cloud (raised exc) previous = ([], previous)
watch_restarts own cloud (returned restarts) previous =
    (restarts_since own cloud previous restarts, some restarts)
