-- ===== src/Escalate/Email/Replies.antt =====
-- agent/escalate.py: the reply of `email_human`, which agent/incidents.py reads.
use srechat.Prelude.{ℕ, ◌≡◌, [], ◌∷◌, true, false, List, ◌⊎◌, returned, raised}
use srechat.Text.{codes, starts_with}
use srechat.Disk.{File}
use srechat.Incidents.{email_sent}
use srechat.Escalate.Leash.{State, Reply, record_send}
use srechat.Escalate.Email.{Provider, Tried, sent_via, all_failed, broke}

module _ {W : Type 0} (sha1_hex : List ℕ → List ℕ) where
  -- One of these providers raises this.
  abbrev pub Raises : List ℕ → List (Provider W) → Type 0
  Raises exc [] = ⊥
  Raises exc (p ∷ ps) =
      ((subject : List ℕ) × (body : List ℕ) × (w : W) × ((p.send subject body w).0 ≡ raised exc))
      ⊎ Raises exc ps

  -- What a call replies to the reason that it is given at the time `t`, and the file behind it.
  abbrev pub Replied : List (Provider W) → List ℕ → ℕ → File State → Reply W → Type 0
  Replied ps reason t before r =
      ((reply : List ℕ) × (r.text ≡ returned reply)
        × (((starts_with email_sent reply ≡ true)
              × (r.file ≡ record_send sha1_hex (codes "email") reason t before))
            ⊎ ((starts_with email_sent reply ≡ false) × (r.file ≡ before))))
      ⊎ ((exc : List ℕ) × (r.text ≡ raised exc) × (r.file ≡ before) × Raises exc ps)

  -- What the loop raises is what a provider raises.
  abbrev Sound : List (Provider W) → Tried → Type 0
  Sound ps (sent_via name) = Unit {0}
  Sound ps (all_failed attempts) = Unit {0}
  Sound ps (broke exc) = Raises exc ps
