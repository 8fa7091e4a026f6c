-- ===== src/Escalate/Leash/Run.antt =====
-- Escalations one after another, with carriers that note what they delivered.
use srechat.Prelude.{
  ℕ, ◌≤◌, Bool, false, List, [], ◌∷◌, ◌++◌, Outcome, returned, raised, if◌then◌else◌,
}
use srechat.Text.{text_eq}
use srechat.Disk.{File}
use srechat.Escalate.Leash.{State, Reply, escalate}

-- A call of `_escalate`, with the clock readings of `allowed` and of `record`.
pub record Page : Type 0 where
  pub channel : List ℕ
  pub reason : List ℕ
  pub checked_at : ℕ
  pub recorded_at : ℕ

-- No clock reading steps back, and none is past the last argument.
abbrev pub Ordered : ℕ → List Page → ℕ → Type 0
Ordered clock [] end = clock ≤ end
Ordered clock (p ∷ pages) end =
    (clock ≤ p.checked_at) × (p.checked_at ≤ p.recorded_at) × Ordered p.recorded_at pages end

-- What the carriers delivered: a channel and a time for each page.
abbrev pub Log : Type 0
Log = List (List ℕ × ℕ)

abbrev pub is_delivered : Outcome (Bool × List ℕ) → Bool
is_delivered (returned (b, detail)) = b
is_delivered (raised e) = false

module _ {ℓ} {W : Type ℓ} where
  abbrev pub noted :
      List ℕ → ℕ → Log → Outcome (Bool × List ℕ) × W → Outcome (Bool × List ℕ) × (W × Log)
  noted channel at log (out, w) =
      (out, (w, if is_delivered out then log ++ (channel, at) ∷ [] else log))

  -- A carrier that keeps the log.
  abbrev pub logged :
      (List ℕ → W → Outcome (Bool × List ℕ) × W)
      → List ℕ
      → ℕ
      → List ℕ
      → (W × Log)
      → Outcome (Bool × List ℕ) × (W × Log)
  logged send channel at reason (w, log) = noted channel at log (send reason w)

module _ {ℓ} {W : Type ℓ} (sha1_hex : List ℕ → List ℕ)
    (send : List ℕ → List ℕ → W → Outcome (Bool × List ℕ) × W) where
  abbrev pub perform : Page → File State → W × Log → Reply (W × Log)
  perform p file w =
      escalate sha1_hex p.channel p.reason (logged (send p.channel) p.channel p.recorded_at)
        p.checked_at p.recorded_at file w

  unfoldable pub delivered : List Page → File State → W × Log → Log
  delivered [] file (w, log) = log
  delivered (p ∷ pages) file w = let r = perform p file w in delivered pages r.file r.world

-- The times of a channel's pages.
abbrev pub times_of : List ℕ → Log → List ℕ
times_of channel [] = []
times_of channel ((c, at) ∷ log) =
    let rest = times_of channel log in if text_eq c channel then at ∷ rest else rest
