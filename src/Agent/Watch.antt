-- ===== src/Agent/Watch.antt =====
-- agent/sre_agent.py: `_debounced`, `_transition` and the looks of `watch_once` at the regions, at this
-- host and at the other agents. What is said is a list of effects. `_watch_state` holds several kinds
-- of values, which are the fields `status` (up is `true`), `investigating` and `multi_region_down`
-- here. Times are whole seconds; `is_open` reads the ledger of agent/incidents.py.
pub mod Debounce
pub mod Tracking
pub mod Host
pub mod Peers
pub mod Logs
mod Tests
use srechat.Prelude.{
  ℕ, suc, ◌+◌, ◌-◌, ◌/◌, Bool, true, false, not, ◌&&◌, ◌||◌, Option, none, some, List, [], ◌∷◌,
  ◌++◌, leb, ltb, ◌==◌, if◌then◌else◌, length, is_empty, any, Outcome, returned, raised, within,
}
use srechat.Prelude.Window.{live}
use srechat.Text.{codes, show, join}
use srechat.Dict
use srechat.Dict.{Dict}

pub record Watch : Type 0 where
  pub status : Dict Bool
  pub fail_streak : Dict ℕ
  pub flaps : Dict (List ℕ)
  pub down_since : Dict ℕ
  pub local_fail_streak : ℕ
  pub investigating : Bool
  pub multi_region_down : Bool

-- `alert(text, key=key, recovered=recovered, email=email)`, `email_alert(text, key=key,
-- recovered=recovered)`, `escalate.sms_human(text)`, the investigation of this region's own trouble,
-- and `close_own_incident_if_recovered()`.
pub data Effect : Type 0 where
  alert_effect : List ℕ → List ℕ → Bool → Bool → Effect
  email_effect : List ℕ → List ℕ → Bool → Effect
  sms_effect : List ℕ → Effect
  self_investigation : List ℕ → Effect
  close_own_incident : Effect

-- `d.get(key, default)`.
abbrev pub or_default : {A : Type 0} → A → Option A → A
or_default d none = d
or_default d (some a) = a

-- `_debounced`: the answer, and the state.
unfoldable pub debounced : ℕ → List ℕ → Bool → Watch → Bool × Watch
debounced fails_to_alert key ok s =
    let streak = suc (or_default 0 (Dict.get s.fail_streak key)) in
    if ok then (true, record s { fail_streak = Dict.put s.fail_streak key 0 }) else (
      ltb streak fails_to_alert && or_default true (Dict.get s.status key),
      record s { fail_streak = Dict.put s.fail_streak key streak },
    )

abbrev pub set_status : List ℕ → Bool → Watch → Watch
set_status key up s = record s { status = Dict.put s.status key up }

abbrev pub flap_key : List ℕ → List ℕ
flap_key key = codes "flap:" ++ key

abbrev pub flapping : List ℕ → ℕ → ℕ → Bool → List ℕ
flapping key times flap_window up =
    codes "FLAPPING: "
    ++ (key
        ++ (codes " has changed state "
            ++ (show times
                ++ (codes " times in the last "
                    ++ (show (flap_window / 60)
                        ++ (codes " minutes and is currently "
                            ++ ((if up then codes "up" else codes "down")
                                ++ codes
                                    ". Something is restarting rather than staying down — check restart counts and logs rather than waiting for it to fail cleanly.")))))))

module _ (flap_window flaps_to_report : ℕ) (is_open : List ℕ → Bool) where
  -- The end of `_transition`, on the changes of the window with this one.
  abbrev pub changed : List ℕ → Bool → List ℕ → List ℕ → Bool → List ℕ → List Effect
  changed key up up_msg down_msg email recent =
      if leb flaps_to_report (length recent)
      then alert_effect (flapping key (length recent) flap_window up) (flap_key key) false email
        ∷ []
      else alert_effect (if up then up_msg else down_msg) key up (email || up) ∷ []

  -- `_transition` on the state that was known: none, or up or down.
  abbrev pub from_known :
      Option Bool → List ℕ → Bool → List ℕ → List ℕ → Bool → ℕ → Watch → List Effect × Watch
  from_known none key up up_msg down_msg email now s = (
    if up && (is_open key || is_open (flap_key key)) then email_effect up_msg key true ∷ [] else [],
    set_status key up s,
  )
  from_known (some was) key up up_msg down_msg email now s =
      let recent = live flap_window now (or_default [] (Dict.get s.flaps key)) ++ now ∷ [] in
      if (was && up) || (not was && not up) then ([], s) else (
        changed key up up_msg down_msg email recent,
        record (set_status key up s) { flaps = Dict.put s.flaps key recent },
      )

  unfoldable pub transition :
      List ℕ → Bool → List ℕ → List ℕ → Bool → ℕ → Watch → List Effect × Watch
  transition key up up_msg down_msg email now s =
      from_known (Dict.get s.status key) key up up_msg down_msg email now s

-- A look at one region: its index, its texts, the answer of the probe, and whether this agent is the
-- primary reporter and whether the region's own agent is reporting.
pub record RegionLook : Type 0 where
  pub index : ℕ
  pub up_msg : List ℕ
  pub down_msg : List ℕ
  pub probe : Bool
  pub is_primary : Bool
  pub owner_reports : Bool

abbrev pub region_key : ℕ → List ℕ
region_key index = codes "region-" ++ show index

module _ (fails_to_alert flap_window flaps_to_report owner_grace own : ℕ)
    (is_open : List ℕ → Bool) where
  -- The end of the loop body: how long a region has been down, and the late e-mail.
  abbrev pub after_transition : RegionLook → Bool → ℕ → Watch → List Effect × Watch
  after_transition look ok now s =
      let key = region_key look.index in
      let since = or_default now (Dict.get s.down_since key) in
      let late =
        email_effect
          (look.down_msg
            ++ (codes " Still down after " ++ (show ((now - since) / 60) ++ codes " minutes.")))
          key false in
      if ok
      then ([], record s { down_since = Dict.remove s.down_since key })
      else if look.index == own
      then ([], s)
      else (
        if leb (since + owner_grace) now then late ∷ [] else [],
        record s { down_since = Dict.put s.down_since key since },
      )

  -- The loop body of `watch_once` for one region, after the debounce.
  abbrev pub debounced_look : RegionLook → ℕ → Bool × Watch → List Effect × Watch
  debounced_look look now (ok, s) =
      let key = region_key look.index in
      let (said, s') =
        transition flap_window flaps_to_report is_open key ok look.up_msg look.down_msg
          (not look.owner_reports) now s in
      let (late, s'') = after_transition look ok now s' in
      if not ok && not look.is_primary then ([], set_status key false s) else (said ++ late, s'')

  unfoldable pub watch_region : RegionLook → ℕ → Watch → List Effect × Watch
  unfolding debounced transition
  watch_region look now s =
      debounced_look look now (debounced fails_to_alert (region_key look.index) look.probe s)

  -- The loop over the regions: the regions that are down, the effects and the state.
  unfoldable pub watch_regions : List RegionLook → ℕ → Watch → List ℕ × (List Effect × Watch)
  unfolding watch_region
  watch_regions [] now s = ([], ([], s))
  watch_regions (look ∷ looks) now s =
      let (ok, _) = debounced fails_to_alert (region_key look.index) look.probe s in
      let (said, s') = watch_region look now s in
      let (down, (more, s'')) = watch_regions looks now s' in
      (if ok then down else look.index ∷ down, (said ++ more, s''))
