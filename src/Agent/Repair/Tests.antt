-- ===== src/Agent/Repair/Tests.antt =====
-- Runs of the work on a region's own trouble.
use srechat.Prelude.{◌≡◌, refl, false, [], ◌∷◌, ◌++◌, if◌then◌else◌, returned}
use srechat.Text.{codes, show, starts_with, strip, lower, splitlines}
use srechat.Investigate.{Investigation}
use srechat.Investigate.Conclusion.{is_resolved, parse_conclusion}
use srechat.Agent.Repair.{Region, work_on}
use srechat.Agent.Repair.Waits.{told_outcomes, awaited, work_on-agrees}

abbrev region0 : Region
region0 = record { index = 0; cloud = codes "GCP"; host = codes "a.example" }

abbrev unfixed : Investigation
unfixed = record {
  trigger = codes "disk is 97% full on region 0";
  conclusion = codes "CAUSE: a log file\nACTION: none\nRESOLVED: no";
  steps = record { tool = codes "disk"; arg = []; output = codes "97%"; seconds = 1 } ∷ [];
  exhausted = false;
}

work_on-agrees_example :
    let works =
      work_on region0
        (region0 ∷ [])
        (codes "sre-agent-0")
        (codes "now")
        (codes "disk" ∷ [])
        unfixed.trigger
        (returned unfixed)
        (returned (codes "sent")) in
    let fixed = is_resolved unfixed.conclusion in
    (told_outcomes works ≡ (codes "self:" ++ show region0.index, (fixed, fixed)) ∷ [])
    × (awaited works ≡ (if fixed then [] else (codes "region-" ++ show region0.index) ∷ []))
work_on-agrees_example =
    work_on-agrees region0 (region0 ∷ []) (codes "sre-agent-0") (codes "now") (codes "disk" ∷ [])
      unfixed.trigger unfixed (codes "sent")

-- It is not fixed: the region waits for a reply.
waits :
    awaited (
      work_on region0
        (region0 ∷ [])
        (codes "sre-agent-0")
        (codes "now")
        (codes "disk" ∷ [])
        unfixed.trigger
        (returned unfixed)
        (returned (codes "sent")))
    ≡ codes "region-0" ∷ []
unfolding work_on is_resolved parse_conclusion starts_with strip lower splitlines show
waits = refl
