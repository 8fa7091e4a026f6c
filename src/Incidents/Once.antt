-- ===== src/Incidents/Once.antt =====
-- agent/incidents.py: what one opening, and one failed opening, leave for the next call.
use srechat.Prelude.{
  ℕ, ◌+◌, ◌<◌, ◌≡◌, refl, true, false, Option, none, some, List, arith, Bool-cases, inl, inr, sym,
  Outcome, returned, raised,
}
use srechat.Text.{starts_with, text_eq_refl}
use srechat.Disk.{File, load, load-save}
use srechat.Dict
use srechat.Dict.{get-put}
use srechat.Incidents.{
  Ledger, Entry, still_open, empty_ledger, email_sent, Sender, deliver, opened, emailed,
  entry_to_open, mark_emailed, counted, already_reported, email_sent-email_failed,
  email_sent-over_ceiling, email_sent-already_reported, ceiling_hit, put_entry,
}

abbrev pub entry_of : List ℕ → File Ledger → Option Entry
entry_of key file = Dict.get (load empty_ledger file).incidents key

pub status-entry_to_open : (now : ℕ) (o : Option Entry) → (entry_to_open now o).status ≡ still_open
status-entry_to_open now none = refl
status-entry_to_open now (some e) = ground arith

abbrev told_or_zero : Option Entry → ℕ
told_or_zero none = 0
told_or_zero (some e) = elim e.emailed_at [ none ↦ 0 | some t ↦ t ]

module _ {ℓ} {W : Type ℓ} where
  delivered-counted :
      (state : Ledger) (now : ℕ) (out : Outcome (List ℕ)) (w : W)
      → let d = counted state now (out, w) in d.delivered ≡ starts_with email_sent d.result
  delivered-counted state now (returned result) w = ground arith
  delivered-counted state now (raised exc) w = sym (email_sent-email_failed exc)

  -- A delivery is told as delivered exactly when its reply says so.
  pub delivered-deliver :
      (max_per_hour : ℕ) (send : Sender W) (state : Ledger) (text : List ℕ) (now : ℕ) (w : W)
      → let d = deliver max_per_hour state send text now w in
        d.delivered ≡ starts_with email_sent d.result
  unfolding deliver
  delivered-deliver max_per_hour send state text now w =
      elim (Bool-cases (ceiling_hit max_per_hour state now).0) [
        | inl hit ↦ rw hit (sym (email_sent-over_ceiling max_per_hour))
        | inr room ↦ rw room (
            delivered-counted (ceiling_hit max_per_hour state now).1 now (send text w).0
              (send text w).1)
      ]

module _ {ℓ} {W : Type ℓ} (remind_seconds max_per_hour : ℕ) (send : Sender W) where
  -- What a sent opening leaves: an open entry that was told at this moment.
  pub opened-entry :
      (key text : List ℕ) (now : ℕ) (file : File Ledger) (w : W)
      → file.writable ≡ true
      → let r = opened remind_seconds max_per_hour send key text now file w in
        starts_with email_sent r.text ≡ true
        → entry_of key r.file ≡ some (mark_emailed true now (entry_to_open now (entry_of key file)))
  unfolding opened
  opened-entry key text now file w wr h =
      let state = load empty_ledger file in
      let d = deliver max_per_hour state send text now w in
      ground (
        arith,
        delivered-deliver max_per_hour send state text now w,
        text_eq_refl key,
        load-save empty_ledger
            (put_entry d.state key
              (mark_emailed d.delivered now (entry_to_open now (entry_of key file))))
            file,
        get-put d.state.incidents key key
            (mark_emailed d.delivered now (entry_to_open now (entry_of key file))),
        email_sent-already_reported now (told_or_zero (entry_of key file)),
      )

  opened_told :
      (key text : List ℕ) (now told : ℕ) (e : Entry) (file : File Ledger) (w : W)
      → entry_of key file ≡ some e
      → e.status ≡ still_open
      → e.emailed_at ≡ some told
      → now < told + remind_seconds
      → opened remind_seconds max_per_hour send key text now file w
        ≡ record { text = already_reported now told; file = file; world = w }
  unfolding opened
  opened_told key text now told e file w he hs ht lt = ground arith

  -- Once the opening of an incident was e-mailed, with a ledger that can be written, a further opening
  -- of it inside the reminder window sends nothing and changes nothing: it says when the incident was
  -- reported.
  pub opened_once :
      (key text text' : List ℕ) (t₀ t₁ : ℕ) (file : File Ledger) (w w' : W)
      → file.writable ≡ true
      → let r = opened remind_seconds max_per_hour send key text t₀ file w in
        starts_with email_sent r.text ≡ true
        → t₁ < t₀ + remind_seconds
        → opened remind_seconds max_per_hour send key text' t₁ r.file w'
          ≡ record { text = already_reported t₁ t₀; file = r.file; world = w' }
  opened_once key text text' t₀ t₁ file w w' wr h lt =
      let r = opened remind_seconds max_per_hour send key text t₀ file w in
      let e = entry_to_open t₀ (entry_of key file) in
      opened_told key text' t₁ t₀ (mark_emailed true t₀ e) r.file w'
        (opened-entry key text t₀ file w wr h) (status-entry_to_open t₀ (entry_of key file)) refl lt

  -- An opening of an incident that was not e-mailed before, with a ledger that can be written, that
  -- was attempted and not delivered, by a failure of the sender or by the ceiling, does not use the
  -- incident up: its entry stays open with the times it had before, and the next
  -- opening at any time hands its e-mail to the delivery again.
  pub opened_retry :
      (key text text' : List ℕ) (t₀ t₁ : ℕ) (file : File Ledger) (w w' : W)
      → file.writable ≡ true
      → emailed (entry_of key file) ≡ none
      → let r = opened remind_seconds max_per_hour send key text t₀ file w in
        starts_with email_sent r.text ≡ false
        → (entry_of key r.file ≡ some (entry_to_open t₀ (entry_of key file)))
          × ((opened remind_seconds max_per_hour send key text' t₁ r.file w').text
              ≡ (deliver max_per_hour (load empty_ledger r.file) send text' t₁ w').result)
          × ((opened remind_seconds max_per_hour send key text' t₁ r.file w').world
              ≡ (deliver max_per_hour (load empty_ledger r.file) send text' t₁ w').world)
  unfolding opened
  opened_retry key text text' t₀ t₁ file w w' wr ne h =
      let state = load empty_ledger file in
      let d = deliver max_per_hour state send text t₀ w in
      let e = entry_to_open t₀ (entry_of key file) in
      ground (
        arith,
        delivered-deliver max_per_hour send state text t₀ w,
        text_eq_refl key,
        load-save empty_ledger (put_entry d.state key (mark_emailed d.delivered t₀ e)) file,
        get-put d.state.incidents key key (mark_emailed d.delivered t₀ e),
      )
