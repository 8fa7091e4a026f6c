-- ===== src/Incidents/Lifecycle.antt =====
-- agent/incidents.py: an incident is open from its opening to its resolved outcome.
use srechat.Prelude.{
  ℕ, ◌≡◌, refl, ap, ◌∙◌, Bool, true, false, Option, none, some, List, arith, if◌then◌else◌,
  Bool-cases, inl, inr, Outcome, returned, raised,
}
use srechat.Text.{text_eq, text_eq_refl}
use srechat.Disk.{File, load, save, load-save}
use srechat.Dict
use srechat.Dict.{get-put}
use srechat.Incidents.{
  Ledger, Entry, still_open, empty_ledger, Sender, deliver, ceiling_hit, counted, opened, outcome,
  is_open, is_still_open, entry_to_open, mark_emailed, mark_unresolved, put_entry, close_entry,
  emailed, never_emailed, no_open_incident, outcome_resolved,
}
use srechat.Incidents.Once.{entry_of, status-entry_to_open}

-- A saved entry is what its key has afterwards, and no other key changes.
pub entry_of-save :
    (s : Ledger) (key j : List ℕ) (e : Entry) (file : File Ledger)
    → file.writable ≡ true
    → entry_of j (save (put_entry s key e) file)
      ≡ (if text_eq key j then some e else Dict.get s.incidents j)
entry_of-save s key j e file wr =
    rw (load-save empty_ledger (put_entry s key e) file wr) (get-put s.incidents key j e)

module _ {ℓ} {W : Type ℓ} where
  incidents-counted :
      (s : Ledger) (t : ℕ) (o : Outcome (List ℕ)) (w : W)
      → (counted s t (o, w)).state.incidents ≡ s.incidents
  incidents-counted s t (returned r) w = ground arith
  incidents-counted s t (raised e) w = refl

  -- A delivery touches no entry.
  pub incidents-deliver :
      (m : ℕ) (send : Sender W) (s : Ledger) (text : List ℕ) (t : ℕ) (w : W)
      → (deliver m s send text t w).state.incidents ≡ s.incidents
  unfolding deliver ceiling_hit
  incidents-deliver m send s text t w = elim (Bool-cases (ceiling_hit m s t).0) [
    | inl hit ↦ rw hit refl
    | inr room ↦ rw room (incidents-counted (ceiling_hit m s t).1 t (send text w).0 (send text w).1)
  ]

pub some_if_open :
    (o : Option Entry)
    → is_still_open o ≡ true
    → (e : Entry) × (o ≡ some e) × (e.status ≡ still_open)
some_if_open none h = cc
some_if_open (some e) h = (e, refl, ground arith)

module _ {ℓ} {W : Type ℓ} (remind_seconds max_per_hour : ℕ) (send : Sender W) where
  -- After `opened`, with a ledger that can be written, the incident is open, on every branch: sent,
  -- failed, at the ceiling or already reported.
  pub is_open-opened :
      (key text : List ℕ) (now : ℕ) (file : File Ledger) (w : W)
      → file.writable ≡ true
      → is_open key (opened remind_seconds max_per_hour send key text now file w).file ≡ true
  unfolding is_open opened
  is_open-opened key text now file w wr =
      let d = deliver max_per_hour (load empty_ledger file) send text now w in
      let e = entry_to_open now (entry_of key file) in
      ground (
        arith,
        text_eq_refl key,
        status-entry_to_open now (entry_of key file),
        entry_of-save d.state key key (mark_emailed d.delivered now e) file wr,
      )

  entry_of-outcome_resolved :
      (key j text : List ℕ) (now : ℕ) (e : Entry) (file : File Ledger) (w : W)
      → file.writable ≡ true
      → entry_of j
          (outcome_resolved remind_seconds max_per_hour send e.emailed_at key text now
            (load empty_ledger file)
            e
            file
            w).file
        ≡ (if text_eq key j then some (close_entry now e) else entry_of j file)
  entry_of-outcome_resolved key j text now e file w wr = by_told e.emailed_at
    where
      state : Ledger
      state = load empty_ledger file

      by_told :
          (told : Option ℕ)
          → entry_of j
              (outcome_resolved remind_seconds max_per_hour send told key text now state e file
                w).file
            ≡ (if text_eq key j then some (close_entry now e) else entry_of j file)
      by_told none = entry_of-save state key j (close_entry now e) file wr
      by_told (some told) =
          entry_of-save (deliver max_per_hour state send text now w).state key j (close_entry now e)
            file wr
          ∙ ap
              (λ (d : Dict.Dict Entry).
                if text_eq key j then some (close_entry now e) else Dict.get d j)
              (incidents-deliver max_per_hour send state text now w)

  -- A resolved outcome of an open incident, with a ledger that can be written, closes it, whatever
  -- becomes of the e-mail, and leaves every other incident as it was; if the opening was never e-mailed, nothing is sent.
  pub outcome_closes :
      (key text : List ℕ) (now : ℕ) (file : File Ledger) (w : W)
      → file.writable ≡ true
      → is_open key file ≡ true
      → let r = outcome remind_seconds max_per_hour send key text true now file w in
        (is_open key r.file ≡ false)
        × ((j : List ℕ) → text_eq key j ≡ false → entry_of j r.file ≡ entry_of j file)
        × (emailed (entry_of key file) ≡ none → (r.text ≡ never_emailed) × (r.world ≡ w))
  unfolding is_open outcome
  outcome_closes key text now file w wr op =
      let (e, found, status) = some_if_open (entry_of key file) op in
      let after = λ (j : List ℕ). entry_of-outcome_resolved key j text now e file w wr in
      rw (op, found)
        (
          rw (after key, text_eq_refl key) refl,
          λ j ne. rw (after j, ne) refl,
          λ untold. rw untold (refl, refl),
        )

  -- An unresolved outcome of an open incident, with a ledger that can be written, leaves it open.
  pub outcome_stays_open :
      (key text : List ℕ) (now : ℕ) (file : File Ledger) (w : W)
      → file.writable ≡ true
      → is_open key file ≡ true
      → is_open key (outcome remind_seconds max_per_hour send key text false now file w).file ≡ true
  unfolding is_open outcome
  outcome_stays_open key text now file w wr op =
      let d = deliver max_per_hour (load empty_ledger file) send text now w in
      let (e, found, status) = some_if_open (entry_of key file) op in
      ground (
        arith,
        text_eq_refl key,
        entry_of-save d.state key key (mark_unresolved d.delivered now e) file wr,
      )

  -- An incident that is not open has no outcome: nothing is sent and nothing is saved.
  pub outcome_needs_open :
      (key text : List ℕ) (fixed : Bool) (now : ℕ) (file : File Ledger) (w : W)
      → is_open key file ≡ false
      → outcome remind_seconds max_per_hour send key text fixed now file w
        ≡ record { text = no_open_incident; file = file; world = w }
  unfolding is_open outcome
  outcome_needs_open key text fixed now file w op = rw op refl
