-- ===== src/Agent/Host/Arguments.antt =====
-- agent/sre_agent.py: what a tool runs, whatever it is given as its argument.
use srechat.Prelude.{
  ℕ, zero, suc, ◌≤◌, ◌≡◌, refl, Bool, true, false, ◌&&◌, List, [], ◌∷◌, arith, all, keep, take,
  length, is_empty, length-take-le, Bool-cases, inl, inr,
}
use srechat.Text.{codes, text_eq, strip, lower}
use srechat.Agent.Tools.{is_in}
use srechat.Agent.Host.{
  Host, refuses, runs, services, service_of, restart_command, tool_restart_region0, in_revision,
  revision_of, rollback_command, tool_tr_rollback,
}

-- The restart of one of this region's three services, and not of an app that is healthy.
abbrev pub RestartsOnly : List ℕ → Bool → Host → Type 0
RestartsOnly dir healthy (refuses text) = Unit
RestartsOnly dir healthy (runs command seconds) =
    (service : List ℕ) × (command ≡ restart_command dir service)
    × (is_in service services ≡ true)
    × ((text_eq service (codes "app") && healthy) ≡ false)

abbrev pub writes_allowed : List ℕ → Bool
writes_allowed setting = is_in (lower (strip setting)) (codes "1" ∷ codes "true" ∷ codes "yes" ∷ [])

-- A shift to one revision, of letters, figures and dashes and not empty, where writes are allowed.
abbrev pub RollsBackOnly : List ℕ → List ℕ → List ℕ → List ℕ → Host → Type 0
RollsBackOnly project region service setting (refuses text) = Unit
RollsBackOnly project region service setting (runs command seconds) =
    (revision : List ℕ) × (command ≡ rollback_command project region service revision)
    × (is_empty revision ≡ false)
    × (all in_revision revision ≡ true)
    × (length revision ≤ 80)
    × (writes_allowed setting ≡ true)

all-keep : (p : ℕ → Bool) (text : List ℕ) → all p (keep p text) ≡ true
all-keep p [] = refl
all-keep p (c ∷ text) = ground (arith, all-keep p text)

all-take : (p : ℕ → Bool) (n : ℕ) (text : List ℕ) → all p text ≡ true → all p (take n text) ≡ true
all-take p zero text h = refl
all-take p (suc n) [] h = refl
all-take p (suc n) (c ∷ text) h = ground (arith, h, all-take p n text)

tool_restart-RestartsOnly :
    (dir : List ℕ) (healthy : Bool) (arg : List ℕ)
    → RestartsOnly dir healthy (tool_restart_region0 dir healthy arg)
unfolding tool_restart_region0
tool_restart-RestartsOnly dir healthy arg =
    let which = service_of arg in
    elim (Bool-cases (is_in which services)) [
      | inr e ↦ rw e tt
      | inl e ↦ elim (Bool-cases (text_eq which (codes "app") && healthy)) [
        | inl h ↦ rw (e, h) tt
        | inr h ↦ rw (e, h) (which, refl, e, h)
      ]
    ]

all-revision_of : (arg : List ℕ) → all in_revision (revision_of arg) ≡ true
unfolding revision_of
all-revision_of arg =
    all-take in_revision 80 (keep in_revision (strip arg)) (all-keep in_revision (strip arg))

length-revision_of : (arg : List ℕ) → length (revision_of arg) ≤ 80
unfolding revision_of
length-revision_of arg = length-take-le 80 (keep in_revision (strip arg))

tool_rollback-RollsBackOnly :
    (project region service setting arg : List ℕ)
    → RollsBackOnly project region service setting
        (tool_tr_rollback project region service setting arg)
unfolding tool_tr_rollback
tool_rollback-RollsBackOnly project region service setting arg =
    let revision = revision_of arg in
    elim (Bool-cases (writes_allowed setting)) [
      | inr w ↦ rw w tt
      | inl w ↦ elim (Bool-cases (is_empty revision)) [
        | inl e ↦ rw (w, e) tt
        | inr e ↦ rw (w, e) (revision, refl, e, all-revision_of arg, length-revision_of arg, w)
      ]
    ]

-- Whatever its argument, the restart tool refuses or restarts one of app, redis and caddy, and the app only
-- if it is not healthy; and the rollback tool refuses or shifts the traffic to one revision, whose name is
-- not empty, has 80 characters at most, letters, figures and dashes, and only where writes are allowed.
pub tools-RestartsOnly :
    (dir : List ℕ) (healthy : Bool) (project region service setting arg : List ℕ)
    → RestartsOnly dir healthy (tool_restart_region0 dir healthy arg)
      × RollsBackOnly project region service setting
          (tool_tr_rollback project region service setting arg)
tools-RestartsOnly dir healthy project region service setting arg = (
  tool_restart-RestartsOnly dir healthy arg,
  tool_rollback-RollsBackOnly project region service setting arg,
)
