-- ===== src/Incidents/Openness.antt =====
-- agent/incidents.py: which incidents are open, as a function of the calls and their replies.
pub mod Distinct
pub mod Refinement
use srechat.Prelude.{
  ℕ, ◌≡◌, refl, sym, ap, subst, ◌∙◌, Bool, true, false, not, Option, none, some, List, [], ◌∷◌,
  ◌++◌, arith, if◌then◌else◌, Bool-cases, inl, inr, keep,
}
use srechat.Text.{text_eq, text_eq_iff, text_eq_refl, starts_with}
use srechat.Disk.{File, load, save, load-save}
use srechat.Dict
use srechat.Dict.{Dict}
use srechat.Incidents.{
  Ledger, Entry, still_open, resolved, empty_ledger, Sender, Reply, Delivery, deliver, opened,
  outcome, report, prune, is_kept, is_open, is_still_open, put_entry, email_sent, unless_told,
  deliver_and_save, reported_entry, mark_emailed, mark_unresolved, outcome_unresolved,
  already_reported, already_unresolved, entry_to_open,
}
use srechat.Incidents.Once.{entry_of}
use srechat.Incidents.Run.{Call, opened_call, outcome_call, report_call, prune_call, perform}
use srechat.Incidents.Lifecycle.{
  entry_of-save, incidents-deliver, is_open-opened, outcome_closes, outcome_stays_open,
  outcome_needs_open, some_if_open,
}

-- Which incidents are open.
abbrev pub Open : Type 0
Open = List ℕ → Bool

abbrev pub set_open : List ℕ → Bool → Open → Open
set_open key b open_now j = if text_eq key j then b else open_now j

-- The contract of the ledger: what a call makes of the open incidents, where `sent` says that its reply
-- tells of a sent e-mail.
abbrev pub next_open : Call → Bool → Open → Open
next_open (opened_call key text) sent o = set_open key true o
next_open (outcome_call key text fixed) sent o = if fixed then set_open key false o else o
next_open (report_call key text window) sent o = if sent then set_open key false o else o
next_open (prune_call age) sent o = o

abbrev pub open_in : File Ledger → Open
open_in file key = is_open key file

set_open-same : (key j : List ℕ) (b : Bool) (o : Open) → o key ≡ b → set_open key b o j ≡ o j
set_open-same key j b o h = elim (Bool-cases (text_eq key j)) [
  | inl e ↦ rw e (sym h ∙ ap o ((text_eq_iff key j).0 e))
  | inr e ↦ rw e refl
]

-- A file in which the key has the status `b` and the other entries are those of another one.
pub set_open-entry :
    (key j : List ℕ) (b : Bool) (file file' : File Ledger)
    → open_in file' key ≡ b
    → (text_eq key j ≡ false → entry_of j file' ≡ entry_of j file)
    → open_in file' j ≡ set_open key b (open_in file) j
unfolding is_open
set_open-entry key j b file file' h other = elim (Bool-cases (text_eq key j)) [
  | inl e ↦ rw e (ap (open_in file') (sym ((text_eq_iff key j).0 e)) ∙ h)
  | inr e ↦ rw e (ap is_still_open (other e))
]

module _ {W : Type 0} (remind_seconds max_per_hour : ℕ) (send : Sender W) where
  pub unless_told-file :
      (P : File Ledger → Type 0) (o : Option ℕ) (say : ℕ → List ℕ) (file : File Ledger) (w : W)
      (fresh : Reply W)
      → P file
      → P fresh.file
      → P (unless_told o say file w fresh).file
  unless_told-file P none say file w fresh h k = k
  unless_told-file P (some told) say file w fresh h k = h

  entry_of-deliver_and_save :
      (mark : Bool → ℕ → Entry → Entry) (key j text : List ℕ) (now : ℕ) (e : Entry)
      (file : File Ledger) (w : W)
      → file.writable ≡ true
      → text_eq key j ≡ false
      → entry_of j
          (deliver_and_save remind_seconds max_per_hour send mark key text now
            (load empty_ledger file)
            e
            file
            w).file
        ≡ entry_of j file
  entry_of-deliver_and_save mark key j text now e file w wr ne =
      let d = deliver max_per_hour (load empty_ledger file) send text now w in
      entry_of-save d.state key j (mark d.delivered now e) file wr
      ∙ rw ne (
          ap (λ (i : Dict Entry). Dict.get i j)
            (incidents-deliver max_per_hour send (load empty_ledger file) text now w))

  entry_of-opened :
      (key j text : List ℕ) (now : ℕ) (file : File Ledger) (w : W)
      → file.writable ≡ true
      → text_eq key j ≡ false
      → entry_of j (opened remind_seconds max_per_hour send key text now file w).file
        ≡ entry_of j file
  unfolding opened
  entry_of-opened key j text now file w wr ne =
      let e = entry_to_open now (entry_of key file) in
      unless_told-file (λ f. entry_of j f ≡ entry_of j file) _ (already_reported now) file w _ refl
        (entry_of-deliver_and_save mark_emailed key j text now e file w wr ne)

  pub open_in-opened :
      (key j text : List ℕ) (now : ℕ) (file : File Ledger) (w : W)
      → file.writable ≡ true
      → open_in (opened remind_seconds max_per_hour send key text now file w).file j
        ≡ set_open key true (open_in file) j
  open_in-opened key j text now file w wr =
      set_open-entry key j true file
        (opened remind_seconds max_per_hour send key text now file w).file
        (is_open-opened remind_seconds max_per_hour send key text now file w wr)
        (entry_of-opened key j text now file w wr)

  entry_of-unresolved :
      (key j text : List ℕ) (now : ℕ) (e : Entry) (file : File Ledger) (w : W)
      → file.writable ≡ true
      → text_eq key j ≡ false
      → entry_of j
          (outcome_unresolved remind_seconds max_per_hour send key text now
            (load empty_ledger file)
            e
            file
            w).file
        ≡ entry_of j file
  entry_of-unresolved key j text now e file w wr ne =
      unless_told-file (λ f. entry_of j f ≡ entry_of j file) _ (already_unresolved now) file w _
        refl (entry_of-deliver_and_save mark_unresolved key j text now e file w wr ne)

  entry_of-outcome-false :
      (key j text : List ℕ) (now : ℕ) (file : File Ledger) (w : W)
      → file.writable ≡ true
      → open_in file key ≡ true
      → text_eq key j ≡ false
      → entry_of j (outcome remind_seconds max_per_hour send key text false now file w).file
        ≡ entry_of j file
  unfolding outcome is_open
  entry_of-outcome-false key j text now file w wr op ne =
      let (e, found, status) = some_if_open (entry_of key file) op in
      rw (op, found) (entry_of-unresolved key j text now e file w wr ne)

  -- An outcome of an incident that is not open leaves the file alone.
  outcome_file :
      (key text : List ℕ) (fixed : Bool) (now : ℕ) (file : File Ledger) (w : W)
      → open_in file key ≡ false
      → (outcome remind_seconds max_per_hour send key text fixed now file w).file ≡ file
  outcome_file key text fixed now file w op =
      ap (λ (r : Reply W). r.file)
        (outcome_needs_open remind_seconds max_per_hour send key text fixed now file w op)

  pub open_in-outcome :
      (key j text : List ℕ) (fixed : Bool) (now : ℕ) (file : File Ledger) (w : W)
      → file.writable ≡ true
      → open_in (outcome remind_seconds max_per_hour send key text fixed now file w).file j
        ≡ (if fixed then set_open key false (open_in file) else open_in file) j
  open_in-outcome key j text true now file w wr = elim (Bool-cases (open_in file key)) [
    | inl op ↦
        let closes = outcome_closes remind_seconds max_per_hour send key text now file w wr op in
        set_open-entry key j false file
          (outcome remind_seconds max_per_hour send key text true now file w).file closes.0
          (closes.1 j)
    | inr op ↦
        ap (λ f. open_in f j) (outcome_file key text true now file w op)
        ∙ sym (set_open-same key j false (open_in file) op)
  ]
  open_in-outcome key j text false now file w wr = elim (Bool-cases (open_in file key)) [
    | inl op ↦
        set_open-entry key j true file
          (outcome remind_seconds max_per_hour send key text false now file w).file
          (outcome_stays_open remind_seconds max_per_hour send key text now file w wr op)
          (entry_of-outcome-false key j text now file w wr op)
        ∙ set_open-same key j true (open_in file) op
    | inr op ↦ ap (λ f. open_in f j) (outcome_file key text false now file w op)
  ]
