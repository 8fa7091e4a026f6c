-- ===== src/Agent/Phones/Tests.antt =====
-- Runs of the pager.
use srechat.Prelude.{
  ℕ, ◌≡◌, refl, true, none, some, List, [], ◌∷◌, map, keep, Outcome, returned, raised,
}
use srechat.Text.{codes}
use srechat.Disk.{File}
use srechat.Agent.Phones.{Device, owner_devices, push_alert}
use srechat.Agent.Phones.Outage.{pushed, dropped, is_gone, push_alert-outage}

abbrev phones : List Device
phones =
    record { token = codes "aa"; env = none }
    ∷ record { token = codes "bb"; env = some (codes "sandbox") }
    ∷ []

abbrev cache : File (List Device)
cache = record { content = none; writable = true }

abbrev gone : List ℕ → Outcome ℕ
gone token = returned 410

abbrev no_digest : List ℕ → List ℕ
no_digest text = text

push_alert-outage_example :
    let known = (owner_devices (returned (some phones)) cache).1 in
    let pushes = (push_alert no_digest (codes "down") gone true (raised (codes "502")) known).0 in
    (pushed pushes ≡ map (λ d. d.token) phones)
    × (dropped pushes ≡ keep (λ t. is_gone (gone t)) (map (λ d. d.token) phones))
push_alert-outage_example =
    push_alert-outage no_digest (codes "down") gone phones cache (codes "502") refl refl
