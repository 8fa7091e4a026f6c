-- ===== src/Escalate/Email.antt =====
-- agent/escalate.py: `email_human` and `tr_notify`.
pub mod Replies
use srechat.Prelude.{
  ℕ, Bool, true, false, not, Option, none, some, List, [], ◌∷◌, ◌++◌, ◌==◌, if◌then◌else◌, is_empty,
  take, all, Outcome, returned, raised,
}
use srechat.Text.{codes, join, show, strip, splitlines}
use srechat.Disk.{File, load}
use srechat.Escalate.Leash.{State, Reply, empty_state, allowed, record_send}
use srechat.Escalate.Carriers.{Answer, is_success, is_set, unconfigured, refused}

-- A provider of e-mail: `send` has the subject and the body, and may raise.
pub record Provider (W : Type 0) : Type 0 where
  pub name : List ℕ
  pub available : Bool
  pub send : List ℕ → List ℕ → W → Outcome Answer × W

-- `tr_notify` on what the service answered: delivered or not with its carrier and detail, an HTTP
-- error, the reading or decoding of whose body may raise, or another exception.
pub data Notified : Type 0 where
  answered : Bool → List ℕ → List ℕ → Notified
  http_error : ℕ → Outcome (List ℕ) → Notified
  failed : List ℕ → Notified

unfoldable pub tr_notify : List ℕ → Notified → Outcome Answer
tr_notify channel (answered delivered carrier detail) = returned (
  if delivered then 200 else 502,
  strip ((if is_set carrier then carrier else channel) ++ (codes ": " ++ detail)),
)
tr_notify channel (http_error code (returned raw)) = returned (code, take 200 raw)
tr_notify channel (http_error code (raised exc)) = raised exc
tr_notify channel (failed exc) = returned (0, exc)

-- The settings of the three providers, stripped; an absent one is empty.
pub record EmailSettings : Type 0 where
  pub tr_api_key : List ℕ
  pub email_to : List ℕ
  pub email_from : List ℕ
  pub sendgrid_key : List ℕ
  pub smtp_host : List ℕ
  pub smtp_user : List ℕ
  pub smtp_pass : List ℕ

abbrev all_set : List (List ℕ) → Bool
all_set settings = all is_set settings

unfoldable pub sendgrid_available : EmailSettings → Bool
sendgrid_available s = all_set (s.sendgrid_key ∷ s.email_to ∷ s.email_from ∷ [])

unfoldable pub smtp_available : EmailSettings → Bool
smtp_available s =
    all_set (s.smtp_host ∷ s.smtp_user ∷ s.smtp_pass ∷ s.email_to ∷ s.email_from ∷ [])

-- The subject is the first line. A stripped text that is not empty has one.
abbrev pub subject_of : List (List ℕ) → List ℕ
subject_of [] = []
subject_of (line ∷ lines) = take 200 line

abbrev pub body_of : List (List ℕ) → List ℕ
body_of [] = []
body_of (line ∷ lines) =
    let body = strip (join (codes "\n") lines) in if is_empty body then line else body

abbrev rule : List ℕ
rule = codes "============================================================"

abbrev pub with_log : List ℕ → List ℕ → List ℕ
with_log body attachments =
    if is_empty attachments
    then body
    else body
      ++ (codes "\n\n" ++ (rule ++ (codes "\nFULL LOG\n" ++ (rule ++ (codes "\n" ++ attachments)))))

-- The end of the loop over the providers: the name of the one that took the message, the attempts, or what
-- a provider raised.
pub data Tried : Type 0 where
  sent_via : List ℕ → Tried
  all_failed : List (List ℕ) → Tried
  broke : List ℕ → Tried

module _ {W : Type 0} where
  -- The providers in the order of `email_human`.
  abbrev pub providers :
      EmailSettings
      → (List ℕ → List ℕ → W → Outcome Answer × W)
      → (List ℕ → List ℕ → W → Outcome Answer × W)
      → (List ℕ → List ℕ → W → Outcome Answer × W)
      → List (Provider W)
  providers s tr_notify_email sendgrid_email smtp_email =
      record {
        name = codes "trustedrouter";
        available = is_set s.tr_api_key;
        send = tr_notify_email;
      }
      ∷ record { name = codes "sendgrid"; available = sendgrid_available s; send = sendgrid_email }
      ∷ record { name = codes "smtp"; available = smtp_available s; send = smtp_email }
      ∷ []

  -- The end of a provider's `send`; `lost` goes on with the next provider.
  abbrev pub tried :
      Provider W → List (List ℕ) → (List (List ℕ) → W → Tried × W) → Outcome Answer × W → Tried × W
  tried p attempts lost (raised exc, w) = (broke exc, w)
  tried p attempts lost (returned answer, w) =
      let rest = lost (attempts ++ refused p.name answer ∷ []) w in
      if is_success answer.0 then (sent_via p.name, w) else rest

  unfoldable pub try_providers : List (Provider W) → List ℕ → List ℕ → List (List ℕ) → W → Tried × W
  try_providers [] subject body attempts w = (all_failed attempts, w)
  try_providers (p ∷ providers) subject body attempts w =
      let skipped = try_providers providers subject body (attempts ++ unconfigured p.name ∷ []) w in
      let called =
        tried p attempts (λ attempts' w'. try_providers providers subject body attempts' w')
          (p.send subject body w) in
      if p.available then called else skipped

  module _ (sha1_hex : List ℕ → List ℕ) where
    abbrev pub email_done : List ℕ → ℕ → File State → Tried × W → Reply W
    email_done text recorded_at file (sent_via name, w) = record {
      text = returned (codes "email sent via " ++ name);
      file = record_send sha1_hex (codes "email") text recorded_at file;
      world = w;
    }
    email_done text recorded_at file (all_failed attempts, w) = record {
      text = returned (
          codes "email FAILED: "
          ++ (if is_empty attempts
              then codes "no provider configured"
              else join (codes "; ") attempts));
      file = file;
      world = w;
    }
    email_done text recorded_at file (broke exc, w) = record {
      text = raised exc;
      file = file;
      world = w;
    }

    abbrev pub if_email_allowed :
        Option (List ℕ) → List (Provider W) → List ℕ → List ℕ → ℕ → File State → W → Reply W
    if_email_allowed (some why) ps text attachments recorded_at file w = record {
      text = returned (codes "email suppressed (" ++ (why ++ codes ")"));
      file = file;
      world = w;
    }
    if_email_allowed none ps text attachments recorded_at file w =
        let lines = splitlines text in
        email_done text recorded_at file (
          try_providers ps (codes "[SREChat] " ++ subject_of lines)
            (with_log (body_of lines) attachments) [] w)

    unfoldable pub email_human :
        List (Provider W) → List ℕ → List ℕ → ℕ → ℕ → File State → W → Reply W
    unfolding try_providers
    email_human ps text attachments checked_at recorded_at file w =
        let text' = strip text in
        if is_empty text'
        then record {
          text = returned (codes "email refused: nothing to say");
          file = file;
          world = w;
        }
        else if_email_allowed
            (allowed sha1_hex (codes "email") text' checked_at (load empty_state file)) ps text'
            attachments recorded_at file w
