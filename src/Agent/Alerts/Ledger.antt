-- ===== src/Agent/Alerts/Ledger.antt =====
-- agent/sre_agent.py: what an alert leaves in the ledger of incidents.
use srechat.Prelude.{
  ℕ, ◌≡◌, refl, ap, ◌∙◌, Bool, true, false, not, ◌&&◌, Option, List, arith, Bool-cases, inl, inr,
  length, suc,
}
use srechat.Text.{starts_with, text_eq, text_eq_iff}
use srechat.Disk.{File}
use srechat.Incidents
use srechat.Incidents.{Sender, Reply, opened, outcome, is_open, is_still_open, no_open_incident}
use srechat.Incidents.Run.{perform, outcome_call}
use srechat.Incidents.Ceiling.{perform-writable}
use srechat.Incidents.Lifecycle.{is_open-opened, outcome_closes, outcome_needs_open}
use srechat.Agent.Alerts.{
  incident_of, email_alert, alert, flap_incident, email_recovery, recovery_mail,
}

other_key : (key : List ℕ) → text_eq (flap_incident key) key ≡ false
other_key key = elim (Bool-cases (text_eq (flap_incident key) key)) [
  | inl e ↦ elim (longer (ap length ((text_eq_iff (flap_incident key) key).0 e))) [ ]
  | inr e ↦ e
]
  where
    longer : suc (suc (suc (suc (suc (length key))))) ≡ length key → ⊥
    longer h = omega (arith, h)

and_false : (b : Bool) → (b && false) ≡ false
and_false true = refl
and_false false = refl

own_reply : starts_with no_open_incident no_open_incident ≡ true
unfolding no_open_incident starts_with
own_reply = refl

module _ {W : Type 0} (remind_seconds max_per_hour : ℕ) (email_human : Sender W)
    (sha_fingerprint : List ℕ → List ℕ) (mail_of : List ℕ → List (List ℕ) → List ℕ)
    (chat push : List ℕ → W → W) where
  abbrev pub alerted : List ℕ → Option (List ℕ) → Bool → ℕ → ℕ → File Incidents.Ledger → W → Reply W
  alerted text key recovered now now' file w =
      alert remind_seconds max_per_hour email_human sha_fingerprint mail_of chat push text key
        recovered true now now' file w

  abbrev pub incident : Option (List ℕ) → List ℕ → List ℕ
  incident key text = incident_of sha_fingerprint key text

  -- An alert that is e-mailed and is no recovery leaves its incident open in a ledger that can be
  -- written, whatever becomes of the chat line, the phones and the e-mail.
  pub alert_opens :
      (text : List ℕ) (key : Option (List ℕ)) (now now' : ℕ) (file : File Incidents.Ledger) (w : W)
      → file.writable ≡ true
      → is_open (incident key text) (alerted text key false now now' file w).file ≡ true
  unfolding alert email_alert
  alert_opens text key now now' file w h =
      is_open-opened remind_seconds max_per_hour email_human (incident key text) _ now file _ h

  abbrev recovered : List ℕ → List ℕ → ℕ → ℕ → File Incidents.Ledger → W → Reply W
  recovered = email_recovery remind_seconds max_per_hour email_human sha_fingerprint mail_of

  abbrev ended : List ℕ → List ℕ → ℕ → File Incidents.Ledger → W → Reply W
  ended key mail now file w =
      outcome remind_seconds max_per_hour email_human key mail true now file w

  recovery-closes_flap :
      (key mail : List ℕ) (now now' : ℕ) (file : File Incidents.Ledger) (w : W)
      → file.writable ≡ true
      → is_open key file ≡ false
      → is_open (flap_incident key) file ≡ true
      → is_open (flap_incident key) (recovered key mail now now' file w).file ≡ false
  recovery-closes_flap key mail now now' file w h shut still =
      rw
        (
          outcome_needs_open remind_seconds max_per_hour email_human key mail true now file w shut,
          own_reply,
        )
        (outcome_closes remind_seconds max_per_hour email_human (flap_incident key) mail now' file w
          h still).0

  -- Ending the flapping leaves the incident as it was.
  flap-leaves :
      (key mail : List ℕ) (now : ℕ) (file : File Incidents.Ledger) (w : W)
      → file.writable ≡ true
      → is_open key (ended (flap_incident key) mail now file w).file ≡ is_open key file
  unfolding is_open
  flap-leaves key mail now file w h = elim (Bool-cases (is_open (flap_incident key) file)) [
    | inl e ↦ ap is_still_open (
        (outcome_closes remind_seconds max_per_hour email_human (flap_incident key) mail now file w
            h e).1
          key (other_key key))
    | inr e ↦
        rw
          (outcome_needs_open remind_seconds max_per_hour email_human (flap_incident key) mail true
            now file w e)
          refl
  ]

  can_write :
      (key mail : List ℕ) (now : ℕ) (file : File Incidents.Ledger) (w : W)
      → file.writable ≡ true
      → (ended key mail now file w).file.writable ≡ true
  unfolding perform
  can_write key mail now file w h =
      perform-writable remind_seconds max_per_hour email_human now (outcome_call key mail true) file
        w
      ∙ h

  recovery-closes :
      (key mail : List ℕ) (now now' : ℕ) (file : File Incidents.Ledger) (w : W)
      → file.writable ≡ true
      → is_open key file ≡ true
      → is_open key (recovered key mail now now' file w).file ≡ false
  recovery-closes key mail now now' file w h still =
      let r = ended key mail now file w in
      let closed =
        (outcome_closes remind_seconds max_per_hour email_human key mail now file w h still).0 in
      elim (Bool-cases (starts_with no_open_incident r.text)) [
        | inl e ↦
            rw e
              (flap-leaves key mail now' r.file r.world (can_write key mail now file w h) ∙ closed)
        | inr e ↦ rw e closed
      ]

  recovery-shut :
      (key mail : List ℕ) (now now' : ℕ) (file : File Incidents.Ledger) (w : W)
      → file.writable ≡ true
      → is_open key (recovered key mail now now' file w).file ≡ false
  recovery-shut key mail now now' file w h = elim (Bool-cases (is_open key file)) [
    | inl still ↦ recovery-closes key mail now now' file w h still
    | inr shut ↦
        rw
          (
            outcome_needs_open remind_seconds max_per_hour email_human key mail true now file w
                shut,
            own_reply,
          )
          (flap-leaves key mail now' file w h ∙ shut)
  ]

  recovery-shut_flap :
      (key mail : List ℕ) (now now' : ℕ) (file : File Incidents.Ledger) (w : W)
      → file.writable ≡ true
      → (is_open (flap_incident key) (recovered key mail now now' file w).file
          && not (is_open key file))
        ≡ false
  recovery-shut_flap key mail now now' file w h = elim (Bool-cases (is_open key file)) [
    | inl still ↦ rw still (and_false _)
    | inr shut ↦ elim (Bool-cases (is_open (flap_incident key) file)) [
      | inl e ↦ rw (recovery-closes_flap key mail now now' file w h shut e) refl
      | inr e ↦
          rw
            (
              outcome_needs_open remind_seconds max_per_hour email_human key mail true now file w
                  shut,
              own_reply,
              outcome_needs_open remind_seconds max_per_hour email_human (flap_incident key) mail
                  true now' file w e,
              e,
            )
            refl
    ]
  ]

  -- After a recovery that is e-mailed, with a ledger that can be written, its incident is not open,
  -- whatever becomes of the e-mail; and neither is the incident of its flapping where the incident was not
  -- open before.
  pub alert_closes :
      (text : List ℕ) (key : Option (List ℕ)) (now now' : ℕ) (file : File Incidents.Ledger) (w : W)
      → file.writable ≡ true
      → let after = (alerted text key true now now' file w).file in
        (is_open (incident key text) after ≡ false)
        × ((is_open (flap_incident (incident key text)) after
              && not (is_open (incident key text) file))
            ≡ false)
  unfolding alert email_alert
  alert_closes text key now now' file w h = (
    recovery-shut (incident key text) (recovery_mail mail_of text) now now' file _ h,
    recovery-shut_flap (incident key text) (recovery_mail mail_of text) now now' file _ h,
  )
