-- ===== src/Agent/Watch/Host.antt =====
-- agent/sre_agent.py: the look of `watch_once` at this host, what it starts, and the text message when
-- two regions are down. `own` is `REGION_INDEX`, and `cloud` is `CLOUD`.
use srechat.Prelude.{
  ℕ, suc, ◌≡◌, refl, ap, ◌∙◌, Bool, true, false, not, ◌&&◌, ◌||◌, List, [], ◌∷◌, ◌++◌, leb, ltb,
  ◌==◌, arith, map, if◌then◌else◌, length, is_empty, any, all, Outcome, returned, raised,
}
use srechat.Text.{codes, show, join}
use srechat.Agent.Watch.{Watch, Effect, sms_effect, self_investigation, close_own_incident}

-- What is wrong on this host: the containers that are missing, and the trouble in words. A check that
-- raises finds nothing.
abbrev pub missing_of : Outcome (List (List ℕ)) → List (List ℕ)
missing_of (raised exc) = []
missing_of (returned names) = names

abbrev pub trouble_of : ℕ → ℕ → Outcome ℕ → List ℕ
trouble_of own limit (raised exc) = []
trouble_of own limit (returned used) =
    if leb limit used
    then codes "disk is " ++ (show used ++ (codes "% full on region " ++ show own))
    else []

abbrev pub region_is_in : ℕ → List ℕ → Bool
region_is_in own down = any (λ i. own == i) down

abbrev pub trigger_of : ℕ → List ℕ → List (List ℕ) → List ℕ → List ℕ
trigger_of own cloud missing trouble =
    if not (is_empty missing)
    then codes "containers not running on region "
      ++ (show own ++ (codes " (" ++ (cloud ++ (codes "): " ++ join (codes ", ") missing))))
    else if not (is_empty trouble)
    then trouble
    else codes "region "
      ++ (show own ++ (codes " (" ++ (cloud ++ codes ") is failing its own health check")))

-- The regions that are down with this one, if its trouble is debounced.
abbrev pub with_own : ℕ → Bool → List ℕ → List ℕ
with_own own trouble down =
    if trouble && not (region_is_in own down) then down ++ own ∷ [] else down

-- The start of an investigation, once while this region is down, or the end of its incident.
abbrev pub self_look : ℕ → List ℕ → List ℕ → Watch → List Effect × Watch
self_look own trigger down s =
    if region_is_in own down
    then if s.investigating
      then ([], s)
      else (self_investigation trigger ∷ [], record s { investigating = true })
    else (close_own_incident ∷ [], record s { investigating = false })

-- The look at this host: the regions that are down, the effects and the state.
unfoldable pub watch_host :
    ℕ
    → ℕ
    → ℕ
    → List ℕ
    → Outcome (List (List ℕ))
    → Outcome ℕ
    → List ℕ
    → Watch
    → List ℕ × (List Effect × Watch)
watch_host fails_to_act limit own cloud containers disk down s =
    let missing = missing_of containers in
    let trouble = trouble_of own limit disk in
    let is_bad = not (is_empty missing) || not (is_empty trouble) in
    let streak = if is_bad then suc s.local_fail_streak else 0 in
    let acts = is_bad && not (ltb streak fails_to_act) in
    let down' = with_own own acts down in
    let trigger =
      trigger_of own cloud (if acts then missing else []) (if acts then trouble else []) in
    (down', self_look own trigger down' (record s { local_fail_streak = streak }))

abbrev pub multi_region_text : ℕ → List ℕ → List ℕ → List ℕ
multi_region_text regions cloud down =
    show (length down)
    ++ (codes " of "
        ++ (show regions
            ++ (codes " SREChat regions are down (regions "
                ++ (join (codes ", ") (map show down)
                    ++ (codes "), seen from "
                        ++ (cloud
                            ++ codes ". The deployment is no longer tolerating a region loss."))))))

-- The text message, on a change to two regions or more.
unfoldable pub watch_multi_region : ℕ → List ℕ → List ℕ → Watch → List Effect × Watch
watch_multi_region regions cloud down s =
    if leb 2 (length down)
    then (
      if s.multi_region_down then [] else sms_effect (multi_region_text regions cloud down) ∷ [],
      record s { multi_region_down = true },
    )
    else if is_empty down
    then ([], record s { multi_region_down = false })
    else ([], s)

module _ (regions : ℕ) (cloud : List ℕ) where
  -- The looks one after another.
  unfoldable pub multi_region_looks : List (List ℕ) → Watch → List Effect
  multi_region_looks [] s = []
  multi_region_looks (down ∷ looks) s =
      let (said, s') = watch_multi_region regions cloud down s in
      said ++ multi_region_looks looks s'

  two : (n : ℕ) → leb 2 (suc (suc n)) ≡ true
  two n = ground arith

  look-two :
      (i j : ℕ) (down : List ℕ) (s : Watch) (known : Bool)
      → s.multi_region_down ≡ known
      → watch_multi_region regions cloud (i ∷ (j ∷ down)) s ≡ (
        if known then [] else sms_effect (multi_region_text regions cloud (i ∷ (j ∷ down))) ∷ [],
        record s { multi_region_down = true },
      )
  unfolding watch_multi_region
  look-two i j down s known h = rw (two (length down)) (
      ap
        (λ (b : Bool). (
          if b then [] else sms_effect (multi_region_text regions cloud (i ∷ (j ∷ down))) ∷ [],
          record s { multi_region_down = true },
        ))
        h)

  abbrev and_then : List (List ℕ) → List Effect × Watch → List Effect
  and_then looks r = r.0 ++ multi_region_looks looks r.1

  quiet :
      (looks : List (List ℕ)) (s : Watch)
      → all (λ down. not (is_empty down)) looks ≡ true
      → s.multi_region_down ≡ true
      → multi_region_looks looks s ≡ []
  unfolding multi_region_looks watch_multi_region
  quiet [] s h m = refl
  quiet ([] ∷ looks) s h m = ground (arith, h)
  quiet ((i ∷ []) ∷ looks) s h m = quiet looks s h m
  quiet ((i ∷ (j ∷ down)) ∷ looks) s h m =
      ap (and_then looks) (look-two i j down s true m)
      ∙ quiet looks (record s { multi_region_down = true }) h refl

  -- An outage of two regions or more is texted once: after a look that finds it, from a state in
  -- which it was not known, no look says it again while some region stays down.
  pub multi_region_looks_once :
      (i j : ℕ) (down : List ℕ) (looks : List (List ℕ)) (s : Watch)
      → s.multi_region_down ≡ false
      → all (λ down. not (is_empty down)) looks ≡ true
      → multi_region_looks ((i ∷ (j ∷ down)) ∷ looks) s
        ≡ sms_effect (multi_region_text regions cloud (i ∷ (j ∷ down))) ∷ []
  unfolding multi_region_looks watch_multi_region
  multi_region_looks_once i j down looks s h a =
      ap (and_then looks) (look-two i j down s false h)
      ∙ ap (λ (l : List Effect). sms_effect (multi_region_text regions cloud (i ∷ (j ∷ down))) ∷ l)
          (quiet looks (record s { multi_region_down = true }) a refl)
