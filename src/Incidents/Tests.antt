-- ===== src/Incidents/Tests.antt =====
-- Runs of agent/incidents.py at concrete inputs.
use srechat.Prelude.{
  ℕ, suc, ◌≤◌, ◌≡◌, refl, true, false, none, some, List, [], ◌∷◌, arith, within, keep, length,
  returned, raised, all, ◌+◌,
}
use srechat.Text.{codes, starts_with, text_eq}
use srechat.Disk.{File, load, save}
use srechat.Dict
use srechat.Incidents.{
  Ledger, Entry, empty_ledger, Sender, opened, outcome, is_open, prune, already_reported,
  entry_to_open, deliver, emailed, never_emailed, email_sent, email_failed,
}
use srechat.Incidents.Once.{entry_of, opened_once, opened_retry}
use srechat.Incidents.Openness.Refinement.{run, run_open, is_open-run}
use srechat.Incidents.Run.{prune_call, opened_call, outcome_call, report_call, emails_sent}
use srechat.Incidents.Ceiling.{hourly_ceiling}
use srechat.Incidents.Lifecycle.{outcome_closes}
use srechat.Incidents.Pruning.{items_of, prune_lem, stays}

-- A sender that counts, and one that always fails.
abbrev counting : Sender ℕ
counting text w = (returned (codes "email sent via smtp"), suc w)

abbrev failing : Sender ℕ
failing text w = (raised (codes "timeout"), w)

abbrev new_file : File Ledger
new_file = record { content = none; writable = true }

abbrev down : List ℕ
down = codes "region 0 is down"

-- A file with one open incident whose opening was e-mailed at 100.
abbrev open_file : File Ledger
open_file = (opened 3600 20 counting (codes "r0") down 100 new_file 0).file

hourly_ceiling_example :
    length (
      keep
        (λ t. within 60 t 3600)
        (emails_sent 1800 1 counting
          ((10, opened_call (codes "r0") down)
            ∷ ((20, report_call (codes "sweep") down none)
                ∷ ((30, outcome_call (codes "r0") down true) ∷ [])))
          new_file
          0))
    ≤ 1
unfolding opened outcome is_open load save deliver starts_with email_sent email_failed text_eq
    Dict.get Dict.empty Dict.put
hourly_ceiling_example =
    hourly_ceiling 1800 1 counting
      ((10, opened_call (codes "r0") down)
        ∷ ((20, report_call (codes "sweep") down none)
            ∷ ((30, outcome_call (codes "r0") down true) ∷ [])))
      60 new_file 0 refl refl (omega arith, (omega arith, (omega arith, omega arith)))

-- After an opening at 100 that was e-mailed, one at 500 is told so.
opened_once_example :
    opened 3600 20 counting (codes "r0") (codes "still down") 500 open_file 1
    ≡ record { text = already_reported 500 100; file = open_file; world = 1 }
unfolding opened outcome is_open load save deliver starts_with email_sent email_failed text_eq
    Dict.get Dict.empty Dict.put
opened_once_example =
    opened_once 3600 20 counting (codes "r0") down (codes "still down") 100 500 new_file 0 1 refl
      refl (omega arith)

-- After an opening at 100 whose sender failed, one at 160 is delivered.
opened_retry_example :
    let r = opened 3600 20 failing (codes "r0") down 100 new_file 0 in
    (entry_of (codes "r0") r.file ≡ some (entry_to_open 100 (entry_of (codes "r0") new_file)))
    × ((opened 3600 20 failing (codes "r0") down 160 r.file 0).text
        ≡ (deliver 20 (load empty_ledger r.file) failing down 160 0).result)
    × ((opened 3600 20 failing (codes "r0") down 160 r.file 0).world
        ≡ (deliver 20 (load empty_ledger r.file) failing down 160 0).world)
unfolding opened outcome is_open load save deliver starts_with email_sent email_failed text_eq
    Dict.get Dict.empty Dict.put
opened_retry_example =
    opened_retry 3600 20 failing (codes "r0") down down 100 160 new_file 0 0 refl refl refl

outcome_closes_example :
    let r = outcome 3600 20 counting (codes "r0") (codes "repaired") true 700 open_file 1 in
    (is_open (codes "r0") r.file ≡ false)
    × ((j : List ℕ) → text_eq (codes "r0") j ≡ false → entry_of j r.file ≡ entry_of j open_file)
    × (emailed (entry_of (codes "r0") open_file) ≡ none → (r.text ≡ never_emailed) × (r.world ≡ 1))
unfolding opened outcome is_open load save deliver starts_with email_sent email_failed text_eq
    Dict.get Dict.empty Dict.put
outcome_closes_example =
    outcome_closes 3600 20 counting (codes "r0") (codes "repaired") 700 open_file 1 refl refl

-- A file with an open entry and one that was closed at 700.
abbrev closed_file : File Ledger
closed_file = (outcome 3600 20 counting (codes "r0") (codes "repaired") true 700 open_file 1).file

prune_lem_example :
    let (forgotten, file') = prune 86400 90000 closed_file in
    ((key : List ℕ) (e : Entry)
      → entry_of key closed_file ≡ some e
      → stays 90000 86400 e ≡ true
      → entry_of key file' ≡ some e)
    × (all (λ (item : List ℕ × Entry). stays 90000 86400 item.1) (items_of file') ≡ true)
    × (forgotten + length (items_of file') ≡ length (items_of closed_file))
unfolding opened outcome is_open load save deliver starts_with email_sent email_failed text_eq
    Dict.get Dict.empty Dict.put
prune_lem_example = prune_lem 86400 90000 closed_file refl

is_open-run_example :
    is_open (codes "r0") (
      run 1800 20 counting
        ((10, opened_call (codes "r0") down)
          ∷ ((20, prune_call 5) ∷ ((30, outcome_call (codes "r0") down true) ∷ [])))
        new_file
        0)
    ≡ run_open 1800 20 counting
        ((10, opened_call (codes "r0") down)
          ∷ ((20, prune_call 5) ∷ ((30, outcome_call (codes "r0") down true) ∷ [])))
        new_file
        0
        (λ key. is_open key new_file)
        (codes "r0")
unfolding load Dict.empty
is_open-run_example =
    is_open-run 1800 20 counting
      ((10, opened_call (codes "r0") down)
        ∷ ((20, prune_call 5) ∷ ((30, outcome_call (codes "r0") down true) ∷ [])))
      new_file 0 (codes "r0") refl tt
