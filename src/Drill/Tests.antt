-- ===== src/Drill/Tests.antt =====
-- Runs of tools/chaos/drill.py at concrete inputs.
use srechat.Prelude.{ℕ, ◌+◌, ◌≡◌, refl, true, false, ◌&&◌, List, [], ◌∷◌}
use srechat.Text.{codes}
use srechat.Drill.Faults.{Fault}
use srechat.Drill.{passed, drill}
use srechat.Drill.Score.{drill-passed}

-- A host that is its clock: every command exits with 0 at once, and the agent writes nothing.
abbrev exits_zero : List ℕ → ℕ → (ℕ × List ℕ) × ℕ
exits_zero command w = ((0, []), w)

abbrev says_nothing : ℕ → ℕ → List ℕ × ℕ
says_nothing started w = ([], w)

abbrev sleeps : ℕ → ℕ → ℕ
sleeps n w = w + n

abbrev disk_full : Fault
disk_full = record {
  name = codes "disk-nearly-full";
  cause = codes "a large file filled the disk";
  keywords = codes "disk" ∷ codes "full" ∷ [];
  inject = codes "fallocate";
  restore = codes "rm";
  verify_broken = codes "test";
}

drill-passed_example :
    let r = (drill exits_zero says_nothing (λ w. w) sleeps disk_full 40 20 1000).0 in
    (passed r ≡ (r.detected && r.diagnosed))
    × (r.repaired_by_agent ≡ false → r.restored_by_drill ≡ true)
drill-passed_example =
    drill-passed exits_zero says_nothing (λ w. w) sleeps disk_full 40 20 1000 refl
