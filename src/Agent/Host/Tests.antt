-- ===== src/Agent/Host/Tests.antt =====
-- Runs of the tools of the host.
use srechat.Prelude.{
  ℕ, ◌≡◌, refl, Bool, true, false, none, some, Outcome, returned, raised, List, [], ◌∷◌,
}
use srechat.Text.{codes, text_eq, strip, lower, contains, splitlines, join, show}
use srechat.Chaos.{insert_sorted}
use srechat.Agent.Host.{
  runs, restart_command, tool_restart_region0, tool_tr_rollback, disk_percent_used, exited,
  tool_shell, Shell, system_errors,
}
use srechat.Agent.Host.Readings.{Issue, tool_sentry_issues, tool_replication_status}
use srechat.Agent.Repair.{Region}
use srechat.Agent.Host.Arguments.{RestartsOnly, RollsBackOnly, tools-RestartsOnly}

tools-RestartsOnly_example :
    RestartsOnly
      (codes "/srv")
      true
      (tool_restart_region0 (codes "/srv") true (codes "redis; rm -rf /"))
    × RollsBackOnly (codes "p") (codes "r") (codes "s") (codes "true") (
        tool_tr_rollback
          (codes "p")
          (codes "r")
          (codes "s")
          (codes "true")
          (codes "redis; rm -rf /"))
tools-RestartsOnly_example =
    tools-RestartsOnly (codes "/srv") true (codes "p") (codes "r") (codes "s") (codes "true")
      (codes "redis; rm -rf /")

restarts :
    tool_restart_region0 (codes "/srv") true (codes " Redis!")
    ≡ runs (restart_command (codes "/srv") (codes "redis")) 90
unfolding tool_restart_region0 strip lower text_eq
restarts = refl

half_to_even :
    (disk_percent_used 200 199 ≡ 0) × (disk_percent_used 200 197 ≡ 2) × (disk_percent_used 0 0 ≡ 0)
unfolding disk_percent_used
half_to_even = (refl, refl, refl)

abbrev says_no : List ℕ → ℕ → Shell × ℕ
says_no command w =
    (exited (record { code = codes "1"; output = []; errors = codes "no such file" }), w)

shell_fails :
    tool_shell says_no (codes "now") (codes " ls /x ") 0
    ≡ (codes "[exit 1]\n[stderr]\nno such file", (codes "now ls /x" ∷ [], 0))
unfolding tool_shell strip
shell_fails = refl

abbrev quiet : List ℕ → Bool
quiet line = false

memory :
    system_errors quiet (codes "-- No entries --") (codes "boot\nOut of memory: beam\n")
    ≡ codes "KERNEL OOM:\nOut of memory: beam"
unfolding system_errors strip contains join splitlines
memory = refl

abbrev stale : Issue
stale = record { count = none; title = some (codes "boom"); permalink = none; last_seen = some 0 }

abbrev undated : Issue
undated = record { count = none; title = some (codes "boom"); permalink = none; last_seen = none }

undated_issues_stay :
    tool_sentry_issues (codes "t") (codes "o") (codes "p") 86401 (returned (stale ∷ undated ∷ []))
    ≡ codes "[?x] boom — "
unfolding tool_sentry_issues join
undated_issues_stay = refl

abbrev region_1 : Region
region_1 = record { index = 1; cloud = codes "gcp"; host = codes "r1" }

abbrev keeps : Region → List ℕ → List (List ℕ) → Outcome (Unit {0}) × List (List ℕ)
keeps r text w = (returned tt, text ∷ w)

abbrev refuses_write : Region → List ℕ → List (List ℕ) → Outcome (Unit {0}) × List (List ℕ)
refuses_write r text w = (raised (codes "HTTP 503"), w)

abbrev gives : Region → List (List ℕ) → Outcome (List (List ℕ)) × List (List ℕ)
gives r w = (returned (codes "probe-r1-5" ∷ w), w)

abbrev at_once : ℕ → List (List ℕ) → List (List ℕ)
at_once n w = w

replicates : tool_replication_status keeps gives at_once (join (codes ",")) (region_1 ∷ []) 7 [] ≡ (
  codes
      "probe 7: wrote one message in each region, waited 6s\n  region 1 (gcp) sees 1/3: probe-r1-7",
  codes "probe-r1-7" ∷ [],
)
unfolding tool_replication_status join show text_eq insert_sorted
replicates = refl

write_fails :
    tool_replication_status refuses_write gives at_once (join (codes ",")) (region_1 ∷ []) 7 []
    ≡ (codes "could not write to region 1: HTTP 503", [])
unfolding tool_replication_status show
write_fails = refl
