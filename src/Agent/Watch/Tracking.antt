-- ===== src/Agent/Watch/Tracking.antt =====
-- agent/sre_agent.py: a region that an agent saw go down while another agent was the primary reporter.
use srechat.Prelude.{
  ℕ, suc, ◌≡◌, refl, ap, subst, sym, ◌∙◌, Bool, true, false, not, ◌&&◌, some, List, [], ◌∷◌, arith,
}
use srechat.Dict
use srechat.Dict.{Dict}
use srechat.Agent.Watch.{
  Watch, Effect, alert_effect, email_effect, sms_effect, self_investigation, close_own_incident,
  RegionLook, region_key, or_default, transition, after_transition, debounced, debounced_look,
  watch_region,
}
use srechat.Agent.Watch.Debounce.{HasStatus, look-HasStatus, bad_look}

-- The texts that are alerted, in chat and on the phones.
abbrev pub alerts : List Effect → List (List ℕ)
alerts [] = []
alerts (alert_effect text key recovered email ∷ effects) = text ∷ alerts effects
alerts (email_effect text key recovered ∷ effects) = alerts effects
alerts (sms_effect text ∷ effects) = alerts effects
alerts (self_investigation trigger ∷ effects) = alerts effects
alerts (close_own_incident ∷ effects) = alerts effects

module _ (fails_to_alert flap_window flaps_to_report owner_grace own : ℕ)
    (is_open : List ℕ → Bool) where
  abbrev pub watched : RegionLook → ℕ → Watch → List Effect × Watch
  watched = watch_region fails_to_alert flap_window flaps_to_report owner_grace own is_open

  debounced-down :
      (key : List ℕ) (s : Watch)
      → Dict.get s.status key ≡ some false
      → debounced fails_to_alert key false s ≡ (
        false,
        record s {
          fail_streak =
              Dict.put s.fail_streak key (suc (or_default 0 (Dict.get s.fail_streak key)));
        },
      )
  unfolding debounced
  debounced-down key s h = rw h (
      ap
        (λ (b : Bool). (
          b,
          record s {
            fail_streak =
                Dict.put s.fail_streak key (suc (or_default 0 (Dict.get s.fail_streak key)));
          },
        ))
        (and_false _))
    where
      and_false : (b : Bool) → (b && false) ≡ false
      and_false true = refl
      and_false false = refl

  transition-down :
      (key up_msg down_msg : List ℕ) (email : Bool) (now : ℕ) (s : Watch)
      → Dict.get s.status key ≡ some false
      → transition flap_window flaps_to_report is_open key false up_msg down_msg email now s
        ≡ ([], s)
  unfolding transition
  transition-down key up_msg down_msg email now s h = rw h refl

  alerts-after :
      (look : RegionLook) (now : ℕ) (s : Watch)
      → alerts
          (after_transition fails_to_alert flap_window flaps_to_report owner_grace own is_open look
            false now s).0
        ≡ []
  alerts-after look now s = ground arith

  alerts-tracked :
      (look : RegionLook) (p : Bool) (now : ℕ) (s : Watch)
      → Dict.get s.status (region_key look.index) ≡ some false
      → alerts
          (debounced_look fails_to_alert flap_window flaps_to_report owner_grace own is_open
            (bad_look look p)
            now
            (false, s)).0
        ≡ []
  alerts-tracked look false now s h = refl
  alerts-tracked look true now s h =
      rw
        (transition-down (region_key look.index) look.up_msg look.down_msg (not look.owner_reports)
          now s h)
        (alerts-after (bad_look look true) now s)

  alerts-down :
      (look : RegionLook) (p : Bool) (now : ℕ) (s : Watch)
      → Dict.get s.status (region_key look.index) ≡ some false
      → alerts (watched (bad_look look p) now s).0 ≡ []
  unfolding watch_region
  alerts-down look p now s h =
      subst
        (λ (r : Bool × Watch).
          alerts
            (debounced_look fails_to_alert flap_window flaps_to_report owner_grace own is_open
              (bad_look look p) now r).0
          ≡ [])
        (sym (debounced-down (region_key look.index) s h)) (alerts-tracked look p now _ h)

  silent :
      (look : RegionLook) (now : ℕ) (r : Bool × Watch)
      → r.0 ≡ false
      → let t =
          debounced_look fails_to_alert flap_window flaps_to_report owner_grace own is_open
            (bad_look look false)
            now
            r in
        (t.0 ≡ []) × (Dict.get t.1.status (region_key look.index) ≡ some false)
  silent look now (b, s) h =
      let t : HasStatus fails_to_alert flap_window flaps_to_report owner_grace own is_open
          (region_key look.index) b s
          (debounced_look fails_to_alert flap_window flaps_to_report owner_grace own is_open
            (bad_look look false) now (b, s)).1 =
        look-HasStatus fails_to_alert flap_window flaps_to_report owner_grace own is_open
          (bad_look look false) now b s in
      (rw h refl, t.status ∙ ap some h)

  -- An agent whose look finds a region down, the debounce included, while it is not the primary reporter
  -- says nothing, and gives no alert either at the next bad look, primary reporter or not.
  pub watch_region_tracked :
      (look : RegionLook) (now now' : ℕ) (p : Bool) (s : Watch)
      → (debounced fails_to_alert (region_key look.index) false s).0 ≡ false
      → let r = watched (bad_look look false) now s in
        (r.0 ≡ []) × (alerts (watched (bad_look look p) now' r.1).0 ≡ [])
  unfolding watch_region
  watch_region_tracked look now now' p s h =
      let t = silent look now (debounced fails_to_alert (region_key look.index) false s) h in
      (t.0, alerts-down look p now' _ t.1)
