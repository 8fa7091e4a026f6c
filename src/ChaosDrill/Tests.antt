-- ===== src/ChaosDrill/Tests.antt =====
-- Runs of agent/chaos_drill.py at concrete inputs.
use srechat.Prelude.{ℕ, ◌+◌, ◌≤◌, ◌≡◌, Bool, false, List, [], arith}
use srechat.Text.{codes}
use srechat.ChaosDrill.{wait_until}
use srechat.ChaosDrill.Waiting.{wait_until_enough}

-- A fleet that is its clock and whose hosts do not answer.
abbrev never_healthy : List ℕ → ℕ → Bool × ℕ
never_healthy host w = (false, w + 8)

abbrev runs_nothing : List (List ℕ) → ℕ → List ℕ × ℕ
runs_nothing command w = ([], w)

abbrev sleeps : ℕ → ℕ → ℕ
sleeps n w = w + n

probe_takes : (host : List ℕ) (w : ℕ) → w ≤ (never_healthy host w).1
probe_takes host w = omega arith

sleeps_long : (n w : ℕ) → w + n ≤ sleeps n w
sleeps_long n w = omega arith

wait_until_enough_example :
    wait_until never_healthy runs_nothing (λ w. w) sleeps 120 (codes "sre0") 1090 1000
    ≡ wait_until never_healthy runs_nothing (λ w. w) sleeps 90 (codes "sre0") 1090 1000
wait_until_enough_example =
    wait_until_enough never_healthy runs_nothing (λ w. w) sleeps probe_takes sleeps_long 90 120
      (codes "sre0") 1090 1000 (omega arith) (omega arith)
