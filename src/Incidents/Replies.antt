-- ===== src/Incidents/Replies.antt =====
-- The texts that the operations of agent/incidents.py return.
use srechat.Prelude.{ℕ, ◌≡◌, refl, false, List, [], ◌++◌}
use srechat.Text.{codes, show, show_difference, starts_with}

unfoldable pub email_sent : List ℕ
email_sent = codes "email sent"

unfoldable pub email_failed : List ℕ → List ℕ
email_failed exc = codes "email FAILED: " ++ exc

unfoldable pub over_ceiling : ℕ → List ℕ
over_ceiling n = codes "suppressed: " ++ (show n ++ codes " incident emails already sent this hour")

unfoldable pub already_reported : ℕ → ℕ → List ℕ
already_reported now told =
    codes "suppressed: already reported " ++ (show_difference now told ++ codes "s ago")

unfoldable pub already_unresolved : ℕ → ℕ → List ℕ
already_unresolved now told =
    codes "suppressed: already said unresolved " ++ (show_difference now told ++ codes "s ago")

unfoldable pub no_open_incident : List ℕ
no_open_incident = codes "suppressed: no open incident"

unfoldable pub never_emailed : List ℕ
never_emailed = codes "suppressed: the opening was never emailed"

-- No reply of the ledger's own reads like a sent e-mail.
pub email_sent-email_failed : (e : List ℕ) → starts_with email_sent (email_failed e) ≡ false
unfolding email_sent email_failed starts_with
email_sent-email_failed e = refl

pub email_sent-over_ceiling : (n : ℕ) → starts_with email_sent (over_ceiling n) ≡ false
unfolding email_sent over_ceiling starts_with
email_sent-over_ceiling n = refl

pub email_sent-already_reported :
    (now told : ℕ) → starts_with email_sent (already_reported now told) ≡ false
unfolding email_sent already_reported starts_with
email_sent-already_reported now told = refl

pub email_sent-already_unresolved :
    (now told : ℕ) → starts_with email_sent (already_unresolved now told) ≡ false
unfolding email_sent already_unresolved starts_with
email_sent-already_unresolved now told = refl

pub email_sent-no_open_incident : starts_with email_sent no_open_incident ≡ false
unfolding email_sent no_open_incident starts_with
email_sent-no_open_incident = refl

pub email_sent-never_emailed : starts_with email_sent never_emailed ≡ false
unfolding email_sent never_emailed starts_with
email_sent-never_emailed = refl

pub email_sent-nil : starts_with email_sent [] ≡ false
unfolding email_sent starts_with
email_sent-nil = refl

pub ruleset own_replies = (
  email_sent-email_failed, email_sent-over_ceiling, email_sent-already_reported,
  email_sent-already_unresolved, email_sent-no_open_incident, email_sent-never_emailed,
)
