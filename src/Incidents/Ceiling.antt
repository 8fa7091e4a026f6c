-- ===== src/Incidents/Ceiling.antt =====
-- agent/incidents.py: the ceiling on incident e-mails in an hour, over any sequence of calls.
use srechat.Prelude.{
  ℕ, ◌≤◌, ◌<◌, ◌≡◌, refl, sym, ap, ◌∙◌, Bool, true, false, Option, none, some, List, [], ◌∷◌, ◌++◌,
  arith, length, keep, within, if◌then◌else◌, append-nil, inl, inr, Bool-cases, leb, Outcome,
  returned, raised,
}
use srechat.Prelude.Window.{live, live-live, live-append, length-live_one_more, added, added-append}
use srechat.Text.{starts_with}
use srechat.Disk.{File, load, save, load-save, writable-save}
use srechat.Incidents.{
  Ledger, Entry, empty_ledger, email_sent, Sender, Reply, recent, counted, deliver, opened, outcome,
  report, prune, put_entry, close_entry, reported_entry, outcome_resolved, unless_told,
  outcome_entry, email_sent-nil, email_sent-already_reported, email_sent-already_unresolved,
  email_sent-no_open_incident, email_sent-never_emailed,
}
use srechat.Incidents.Once.{delivered-deliver}
use srechat.Incidents.Run.{
  Call, opened_call, outcome_call, report_call, prune_call, Ordered, perform, emails_sent,
}

-- What one call at time `t` does to the send times: `sent` says whether its e-mail went.
leb-false : (a b : ℕ) → leb a b ≡ false → b < a
leb-false a b h = ground arith

record Keeps (max_per_hour t : ℕ) (before after : List ℕ) (sent : Bool) : Type 0 where
  same : (now : ℕ) → t ≤ now → live 3600 now after ≡ live 3600 now (before ++ added sent t)
  room : sent ≡ true → length (live 3600 t before) < max_per_hour

Keeps-refl : (m t : ℕ) (xs : List ℕ) → Keeps m t xs xs false
Keeps-refl m t xs = record { same = λ now h. rw append-nil; room = λ h. cc }

module _ {ℓ} {W : Type ℓ} (max_per_hour : ℕ) where
  counted-Keeps :
      (state : Ledger) (t : ℕ) (out : Outcome (List ℕ)) (w : W)
      → let d = counted (record state { sent = live 3600 t state.sent }) t (out, w) in
        length (live 3600 t state.sent) < max_per_hour
        → Keeps max_per_hour t state.sent d.state.sent d.delivered
  counted-Keeps state t (returned r) w h = elim (Bool-cases (starts_with email_sent r)) [
    | inl went ↦ rw went (record {
      same = λ now le. rw (live-append, live-live 3600 now t state.sent le, ← live-append);
      room = λ _. h;
    })
    | inr lost ↦ rw lost (record {
      same = λ now le. rw (append-nil, live-live 3600 now t state.sent le);
      room = λ e. cc;
    })
  ]
  counted-Keeps state t (raised e) w h = record {
    same = λ now le. rw (append-nil, live-live 3600 now t state.sent le);
    room = λ e. cc;
  }

  deliver-Keeps :
      (send : Sender W) (state : Ledger) (text : List ℕ) (t : ℕ) (w : W)
      → let d = deliver max_per_hour state send text t w in
        Keeps max_per_hour t state.sent d.state.sent d.delivered
  unfolding deliver recent
  deliver-Keeps send state text t w =
      elim (Bool-cases (leb max_per_hour (length (live 3600 t state.sent)))) [
        | inl hit ↦ rw hit (record {
          same = λ now le. rw (append-nil, live-live 3600 now t state.sent le);
          room = λ e. cc;
        })
        | inr room ↦
            rw room (counted-Keeps state t (send text w).0 (send text w).1 (leb-false _ _ room))
      ]

  -- A call that saves what a delivery left, under any change of the entries.
  saved-Keeps :
      (send : Sender W) (text : List ℕ) (t : ℕ) (w : W) (file : File Ledger) (s : Ledger)
      → file.writable ≡ true
      → let d = deliver max_per_hour (load empty_ledger file) send text t w in
        s.sent ≡ d.state.sent
        → Keeps max_per_hour t
            (load empty_ledger file).sent
            (load empty_ledger (save s file)).sent
            (starts_with email_sent d.result)
  saved-Keeps send text t w file s wr e =
      rw
        (
          load-save empty_ledger s file wr,
          e,
          ← delivered-deliver max_per_hour send (load empty_ledger file) text t w,
        )
        (deliver-Keeps send (load empty_ledger file) text t w)

-- A call that sends nothing and keeps the send times.
quiet-Keeps :
    (m t : ℕ) (text : List ℕ) (xs : List ℕ)
    → starts_with email_sent text ≡ false
    → Keeps m t xs xs (starts_with email_sent text)
quiet-Keeps m t text xs h = rw h (Keeps-refl m t xs)

module _ {ℓ} {W : Type ℓ} (remind_seconds max_per_hour : ℕ) (send : Sender W) where
  abbrev ReplyKeeps : ℕ → File Ledger → Reply W → Type 0
  ReplyKeeps t file r =
      Keeps max_per_hour t (load empty_ledger file).sent (load empty_ledger r.file).sent
        (starts_with email_sent r.text)

  unless_told-Keeps :
      (o : Option ℕ) (say : ℕ → List ℕ) (t : ℕ) (file : File Ledger) (w : W) (fresh : Reply W)
      → ((told : ℕ) → starts_with email_sent (say told) ≡ false)
      → ReplyKeeps t file fresh
      → ReplyKeeps t file (unless_told o say file w fresh)
  unless_told-Keeps (some told) say t file w fresh q k = quiet-Keeps _ t _ _ (q told)
  unless_told-Keeps none say t file w fresh q k = k

  outcome_entry-Keeps :
      (o : Option Entry) (fixed : Bool) (key text : List ℕ) (t : ℕ) (file : File Ledger) (w : W)
      → file.writable ≡ true
      → ReplyKeeps t file (
          outcome_entry remind_seconds max_per_hour send o fixed key text t
            (load empty_ledger file)
            file
            w)
  outcome_entry-Keeps none fixed key text t file w wr =
      quiet-Keeps _ t _ _ email_sent-no_open_incident
  outcome_entry-Keeps (some e) true key text t file w wr = by_told e.emailed_at
    where
      by_told :
          (told : Option ℕ)
          → ReplyKeeps t file (
              outcome_resolved remind_seconds max_per_hour send told key text t
                (load empty_ledger file)
                e
                file
                w)
      by_told none =
          rw
            (load-save empty_ledger (put_entry (load empty_ledger file) key (close_entry t e)) file
              wr)
            (quiet-Keeps _ t _ _ email_sent-never_emailed)
      by_told (some told) = saved-Keeps max_per_hour send text t w file _ wr refl
  outcome_entry-Keeps (some e) false key text t file w wr =
      unless_told-Keeps _ _ t file w _ (email_sent-already_unresolved t)
        (saved-Keeps max_per_hour send text t w file _ wr refl)

  sent_if :
      (b : Bool) (s : Ledger) (key : List ℕ) (e : Entry)
      → (if b then put_entry s key e else s).sent ≡ s.sent
  sent_if true s key e = refl
  sent_if false s key e = refl

  -- One call, whatever it is.
  perform-Keeps :
      (t : ℕ) (c : Call) (file : File Ledger) (w : W)
      → file.writable ≡ true
      → ReplyKeeps t file (perform remind_seconds max_per_hour send t c file w)
  unfolding perform
  perform-Keeps t (opened_call key text) file w wr =
      unfold opened in
      unless_told-Keeps _ _ t file w _ (email_sent-already_reported t)
        (saved-Keeps max_per_hour send text t w file _ wr refl)
  perform-Keeps t (outcome_call key text fixed) file w wr =
      unfold outcome in outcome_entry-Keeps _ fixed key text t file w wr
  perform-Keeps t (report_call key text window) file w wr =
      unfold report in
      unless_told-Keeps _ _ t file w _ (email_sent-already_reported t)
        (saved-Keeps max_per_hour send text t w file _ wr (sent_if _ _ key (reported_entry t)))
  perform-Keeps t (prune_call age) file w wr =
      unfold prune in rw (load-save empty_ledger _ file wr) (quiet-Keeps _ t [] _ email_sent-nil)

  unless_told-writable :
      (o : Option ℕ) (say : ℕ → List ℕ) (file : File Ledger) (w : W) (s : Ledger) (text : List ℕ)
      (w' : W)
      → (unless_told o say file w
          (record { text = text; file = save s file; world = w' })).file.writable
        ≡ file.writable
  unless_told-writable (some told) say file w s text w' = refl
  unless_told-writable none say file w s text w' = writable-save s file

  outcome_entry-writable :
      (o : Option Entry) (fixed : Bool) (key text : List ℕ) (t : ℕ) (s : Ledger)
      (file : File Ledger) (w : W)
      → (outcome_entry remind_seconds max_per_hour send o fixed key text t s file w).file.writable
        ≡ file.writable
  outcome_entry-writable none fixed key text t s file w = refl
  outcome_entry-writable (some e) true key text t s file w = by_told e.emailed_at
    where
      by_told :
          (told : Option ℕ)
          → (outcome_resolved remind_seconds max_per_hour send told key text t s e file
              w).file.writable
            ≡ file.writable
      by_told none = writable-save _ file
      by_told (some told) = writable-save _ file
  outcome_entry-writable (some e) false key text t s file w = unless_told-writable _ _ file w _ _ _

  pub perform-writable :
      (t : ℕ) (c : Call) (file : File Ledger) (w : W)
      → (perform remind_seconds max_per_hour send t c file w).file.writable ≡ file.writable
  unfolding perform
  perform-writable t (opened_call key text) file w =
      unfold opened in unless_told-writable _ _ file w _ _ _
  perform-writable t (outcome_call key text fixed) file w =
      unfold outcome in outcome_entry-writable _ fixed key text t _ file w
  perform-writable t (report_call key text window) file w =
      unfold report in unless_told-writable _ _ file w _ _ _
  perform-writable t (prune_call age) file w = unfold prune in writable-save _ file

  -- `told` are the times of the e-mails so far.
  record IsCapped (clock : ℕ) (file : File Ledger) (told : List ℕ) : Type 0 where
    can_write : file.writable ≡ true
    known :
        (now : ℕ) → clock ≤ now → live 3600 now (load empty_ledger file).sent ≡ live 3600 now told
    capped : (now : ℕ) → clock ≤ now → length (live 3600 now told) ≤ max_per_hour

  room_for_one :
      (t now : ℕ) (told : List ℕ) (sent : Bool)
      → t ≤ now
      → (sent ≡ true → length (live 3600 t told) < max_per_hour)
      → (length (live 3600 now told) ≤ max_per_hour)
      → length (live 3600 now (told ++ added sent t)) ≤ max_per_hour
  room_for_one t now told false le room cap = rw append-nil cap
  room_for_one t now told true le room cap =
      length-live_one_more 3600 max_per_hour t t now told le (room refl)

  perform-IsCapped :
      (clock t : ℕ) (c : Call) (file : File Ledger) (w : W) (told : List ℕ)
      → clock ≤ t
      → IsCapped clock file told
      → let r = perform remind_seconds max_per_hour send t c file w in
        IsCapped t r.file (told ++ added (starts_with email_sent r.text) t)
  perform-IsCapped clock t c file w told le h =
      let r = perform remind_seconds max_per_hour send t c file w in
      let sent = starts_with email_sent r.text in
      let k : ReplyKeeps t file r = perform-Keeps t c file w h.can_write in
      let before = (load empty_ledger file).sent in
      record {
        can_write = perform-writable t c file w ∙ h.can_write;
        known = λ now n.
            k.same now n
            ∙ live-append 3600 now before (added sent t)
            ∙ ap (λ (xs : List ℕ). xs ++ live 3600 now (added sent t)) (h.known now (omega arith))
            ∙ sym (live-append 3600 now told (added sent t));
        capped = λ now n.
            room_for_one t now told sent n
              (λ e. omega (arith, k.room e, ap (length {A = ℕ}) (h.known t le)))
              (h.capped now (omega arith));
      }

  emails_sent-IsCapped :
      (clock end : ℕ) (calls : List (ℕ × Call)) (file : File Ledger) (w : W) (told : List ℕ)
      → Ordered clock calls end
      → IsCapped clock file told
      → length (live 3600 end (told ++ emails_sent remind_seconds max_per_hour send calls file w))
        ≤ max_per_hour
  unfolding emails_sent
  emails_sent-IsCapped clock end [] file w told o h = rw append-nil (h.capped end o)
  emails_sent-IsCapped clock end ((t, c) ∷ calls) file w told (le, o) h =
      let r = perform remind_seconds max_per_hour send t c file w in
      let sent = starts_with email_sent r.text in
      rw (added-append sent t _ told) (
        emails_sent-IsCapped t end calls r.file r.world (told ++ added sent t) o
          (perform-IsCapped clock t c file w told le h))

  -- Over any calls of `opened`, `outcome`, `report` and `prune` in the order of their clock readings,
  -- beginning with a ledger that can be written and has counted nothing, at most `max_per_hour` of
  -- the calls of the last hour reply that an e-mail was sent, whatever the sender does.
  pub hourly_ceiling :
      (calls : List (ℕ × Call)) (end : ℕ) (file : File Ledger) (w : W)
      → file.writable ≡ true
      → (load empty_ledger file).sent ≡ []
      → Ordered 0 calls end
      → length (
          keep (λ t. within end t 3600) (emails_sent remind_seconds max_per_hour send calls file w))
        ≤ max_per_hour
  hourly_ceiling calls end file w wr fresh o =
      unfold live in
      emails_sent-IsCapped 0 end calls file w [] o
        (record { can_write = wr; known = λ now _. rw fresh refl; capped = λ now _. omega arith })
