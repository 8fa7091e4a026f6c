-- ===== src/Incidents/Run.antt =====
-- Calls of agent/incidents.py one after another, each at its clock reading.
use srechat.Prelude.{ℕ, ◌≤◌, Bool, Option, List, [], ◌∷◌, if◌then◌else◌}
use srechat.Text.{starts_with}
use srechat.Disk.{File}
use srechat.Incidents.{Ledger, Sender, Reply, opened, outcome, report, prune, email_sent}

pub data Call : Type 0 where
  opened_call : List ℕ → List ℕ → Call
  outcome_call : List ℕ → List ℕ → Bool → Call
  report_call : List ℕ → List ℕ → Option ℕ → Call
  prune_call : ℕ → Call

-- The times do not step back, and none is past the last argument.
abbrev pub Ordered : ℕ → List (ℕ × Call) → ℕ → Type 0
Ordered clock [] end = clock ≤ end
Ordered clock ((t, c) ∷ calls) end = (clock ≤ t) × Ordered t calls end

module _ {ℓ} {W : Type ℓ} (remind_seconds max_per_hour : ℕ) (send : Sender W) where
  unfoldable pub perform : ℕ → Call → File Ledger → W → Reply W
  perform now (opened_call key text) file w =
      opened remind_seconds max_per_hour send key text now file w
  perform now (outcome_call key text fixed) file w =
      outcome remind_seconds max_per_hour send key text fixed now file w
  perform now (report_call key text window) file w =
      report remind_seconds max_per_hour send key text window now file w
  perform now (prune_call age) file w = record {
    text = [];
    file = (prune age now file).1;
    world = w;
  }

  -- The times of the calls whose reply says that an e-mail was sent.
  unfoldable pub emails_sent : List (ℕ × Call) → File Ledger → W → List ℕ
  emails_sent [] file w = []
  emails_sent ((now, c) ∷ calls) file w =
      let r = perform now c file w in
      let rest = emails_sent calls r.file r.world in
      if starts_with email_sent r.text then now ∷ rest else rest
