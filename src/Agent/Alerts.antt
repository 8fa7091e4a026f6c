-- ===== src/Agent/Alerts.antt =====
-- agent/sre_agent.py: `alert`, `email_alert` and `close_own_incident_if_recovered`, on the ledger of
-- agent/incidents.py. `W` is the state of chat, phones and e-mail; what chat raises is swallowed.
-- `mail_of` is `_incident_email`, which adds the clock and the regions to a headline and lines.
pub mod Ledger
use srechat.Prelude.{
  ℕ, Bool, true, false, ◌&&◌, Option, none, some, List, [], ◌∷◌, ◌++◌, if◌then◌else◌, is_empty,
  Outcome, returned, raised,
}
use srechat.Text.{codes, show, starts_with}
use srechat.Disk.{File}
use srechat.Incidents
use srechat.Incidents.{Sender, Reply, opened, outcome, is_open, no_open_incident}

-- `key or f"alert:{signal_fingerprint(text)}"`.
unfoldable pub incident_of : (List ℕ → List ℕ) → Option (List ℕ) → List ℕ → List ℕ
incident_of sha_fingerprint none text = codes "alert:" ++ sha_fingerprint text
incident_of sha_fingerprint (some key) text =
    if is_empty key then codes "alert:" ++ sha_fingerprint text else key

abbrev pub recovery_mail : (List ℕ → List (List ℕ) → List ℕ) → List ℕ → List ℕ
recovery_mail mail_of text = mail_of (codes "✅ SREChat recovered: " ++ text) (
    text ∷ [] ∷ codes "This closes the incident reported earlier. Nothing is needed from you." ∷ [])

abbrev pub incident_mail : (List ℕ → List (List ℕ) → List ℕ) → List ℕ → List ℕ
incident_mail mail_of text = mail_of (codes "🔴 SREChat incident: " ++ text) (
    text
    ∷ []
    ∷ codes
        "The agents are on it: the owning region investigates and repairs what it has the authority to repair. You will get one more email when this ends."
    ∷ [])

abbrev pub flap_incident : List ℕ → List ℕ
flap_incident incident = codes "flap:" ++ incident

module _ {W : Type 0} (remind_seconds max_per_hour : ℕ) (email_human : Sender W)
    (sha_fingerprint : List ℕ → List ℕ) (mail_of : List ℕ → List (List ℕ) → List ℕ) where
  -- A recovery: where the incident is not open, its flapping is what ends.
  abbrev pub email_recovery : List ℕ → List ℕ → ℕ → ℕ → File Incidents.Ledger → W → Reply W
  email_recovery incident mail now now' file w =
      let r = outcome remind_seconds max_per_hour email_human incident mail true now file w in
      let flap =
        outcome remind_seconds max_per_hour email_human (flap_incident incident) mail true now'
          r.file r.world in
      if starts_with no_open_incident r.text then flap else r

  -- `email_alert`; the clock is read once by each call of the ledger.
  unfoldable pub email_alert :
      List ℕ → Option (List ℕ) → Bool → ℕ → ℕ → File Incidents.Ledger → W → Reply W
  unfolding incident_of
  email_alert text key recovered now now' file w =
      if recovered
      then email_recovery (incident_of sha_fingerprint key text) (recovery_mail mail_of text) now
          now' file w
      else opened remind_seconds max_per_hour email_human (incident_of sha_fingerprint key text)
          (incident_mail mail_of text) now file w

  -- `alert`: chat and the phones first, whatever becomes of them, and then the e-mail.
  unfoldable pub alert :
      (List ℕ → W → W)
      → (List ℕ → W → W)
      → List ℕ
      → Option (List ℕ)
      → Bool
      → Bool
      → ℕ
      → ℕ
      → File Incidents.Ledger
      → W
      → Reply W
  unfolding email_alert
  alert chat push text key recovered email now now' file w =
      let w' = push text (chat (codes "🔔 " ++ text) w) in
      if email
      then email_alert text key recovered now now' file w'
      else record { text = []; file = file; world = w' }

  -- `close_own_incident_if_recovered`, with the mail that it sends.
  unfoldable pub close_own_incident_if_recovered :
      ℕ → List ℕ → ℕ → File Incidents.Ledger → W → Reply W
  close_own_incident_if_recovered region mail now file w =
      let key = codes "self:" ++ show region in
      if is_open key file
      then outcome remind_seconds max_per_hour email_human key mail true now file w
      else record { text = []; file = file; world = w }
