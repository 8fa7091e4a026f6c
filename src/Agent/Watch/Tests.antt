-- ===== src/Agent/Watch/Tests.antt =====
-- Runs of the looks at the other agents and at the log.
use srechat.Prelude.{
  ℕ, ◌-◌, ◌≡◌, refl, Bool, true, false, some, List, [], ◌∷◌, ◌++◌, arith, returned,
}
use srechat.Prelude.Window.{live}
use srechat.Text.{codes, show}
use srechat.Dict
use srechat.Dict.{get-empty}
use srechat.Agent.Watch.{Watch, alert_effect}
use srechat.Agent.Watch.Peers.{agent_key, agent_down, agent_looks, watch_restarts, restart_loop}
use srechat.Agent.Watch.Peers.Silent.{silent, agent_looks-silent}
use srechat.Agent.Watch.Logs.{duration_ms, error_lines}

abbrev unknown : Watch
unknown = record {
  status = Dict.empty;
  fail_streak = Dict.empty;
  flaps = Dict.empty;
  down_since = Dict.empty;
  local_fail_streak = 0;
  investigating = false;
  multi_region_down = false;
}

abbrev all_closed : List ℕ → Bool
all_closed key = false

agent_looks-silent_example :
    agent_looks 3600 4 1000 600 180 all_closed
      (silent 1 (codes "AWS"))
      ((1030 ∷ 1060 ∷ []) ++ 1600 ∷ 1630 ∷ 1660 ∷ [])
      unknown
    ≡ alert_effect (agent_down (silent 1 (codes "AWS")) (1600 - 1000)) (agent_key 1) false true ∷ []
unfolding Dict.get Dict.empty live
agent_looks-silent_example =
    agent_looks-silent 3600 4 1000 600 180 all_closed 1 (codes "AWS") (1030 ∷ 1060 ∷ []) 1600
      (1630 ∷ 1660 ∷ []) unknown (refl, (refl, tt))
      ((omega arith, omega arith), ((omega arith, omega arith), ((omega arith, omega arith), tt)))
      refl (omega arith)

-- The first duration with a number counts.
durations : duration_ms (codes "ingest_replicated duration_ms=x duration_ms=12345 ok") ≡ 12345
unfolding duration_ms
durations = refl

-- A line that says that replication stopped is no line of errors.
errors :
    error_lines (codes "ERROR a" ∷ codes "fatal: refusing to continue" ∷ codes "fine" ∷ [])
    ≡ codes "ERROR a" ∷ []
unfolding error_lines
errors = refl

restarts : watch_restarts 0 (codes "GCP") (returned 9) (some 6) ≡ (
  alert_effect (restart_loop 0 (codes "GCP") 3 9) (codes "restart-loop:0") false true ∷ [],
  some 9,
)
unfolding show
restarts = refl
