-- ===== src/Escalate/Leash/Bounds.antt =====
-- agent/escalate.py: no sequence of escalations exceeds a channel's limit.
use srechat.Prelude.{
  ℕ, ◌≤◌, ◌<◌, ◌≡◌, refl, ap, subst, ◌∙◌, Bool, true, false, none, some, List, [], ◌∷◌, ◌++◌, arith,
  keep, length, is_empty, within, Bool-cases, Option-cases, inl, inr, Outcome, returned, raised,
  append-nil, if◌then◌else◌,
}
use srechat.Prelude.Window.{live, live-live, live-append, length-live_one_more, added}
use srechat.Text.{text_eq, text_eq_iff, text_eq_refl, strip}
use srechat.Disk.{File, load, load-save, writable-save}
use srechat.Dict
use srechat.Dict.{get-put}
use srechat.Escalate.Leash.{
  State, empty_state, limit_of, live_sends, sends_or_none, allowed, recorded, record_send, escalate,
  finish,
}
use srechat.Escalate.Leash.Once.{allowed_room}
use srechat.Escalate.Leash.Run.{Page, Ordered, Log, noted, perform, delivered, times_of}

abbrev sends_of : List ℕ → File State → List ℕ
sends_of channel file = sends_or_none (Dict.get (load empty_state file).sends channel)

times_of-append :
    (c d : List ℕ) (at : ℕ) (log : Log)
    → times_of c (log ++ (d, at) ∷ []) ≡ times_of c log ++ added (text_eq d c) at
times_of-append c d at [] = refl
times_of-append c d at ((e, t) ∷ log) = ground (arith, times_of-append c d at log)

module _ (sha1_hex : List ℕ → List ℕ) (c : List ℕ) where
  abbrev window : ℕ
  window = (limit_of c).window

  record IsLeashed (clock : ℕ) (file : File State) (log : Log) : Type 0 where
    can_write : file.writable ≡ true
    known :
        (now : ℕ)
        → clock ≤ now
        → live window now (sends_of c file) ≡ live window now (times_of c log)
    capped :
        (now : ℕ) → clock ≤ now → length (live window now (times_of c log)) ≤ (limit_of c).max_sends

  -- The sends of channel `c` after `record` on channel `d`.
  sends_of-record_send :
      (d reason : List ℕ) (t : ℕ) (file : File State)
      → file.writable ≡ true
      → sends_of c (record_send sha1_hex d reason t file) ≡ (
          if text_eq d c then live_sends (load empty_state file) d t ++ t ∷ [] else sends_of c file)
  unfolding record_send
  sends_of-record_send d reason t file wr =
      let state = load empty_state file in
      rw
        (
          load-save empty_state (recorded sha1_hex d reason t state) file wr,
          get-put state.sends d c (live_sends state d t ++ t ∷ []),
        )
        (by_eq (text_eq d c))
    where
      by_eq :
          (b : Bool)
          → sends_or_none (
              if b
              then some (live_sends (load empty_state file) d t ++ t ∷ [])
              else Dict.get (load empty_state file).sends c)
            ≡ (if b then live_sends (load empty_state file) d t ++ t ∷ [] else sends_of c file)
      by_eq true = refl
      by_eq false = refl

  later-IsLeashed :
      (clock t : ℕ) (file : File State) (log : Log)
      → clock ≤ t
      → IsLeashed clock file log
      → IsLeashed t file log
  later-IsLeashed clock t file log le h = record {
    can_write = h.can_write;
    known = λ now n. h.known now (omega arith);
    capped = λ now n. h.capped now (omega arith);
  }

  -- A page on the channel itself.
  own-IsLeashed :
      (reason : List ℕ) (clock chk t : ℕ) (file : File State) (log : Log)
      → clock ≤ chk
      → chk ≤ t
      → IsLeashed clock file log
      → length (live_sends (load empty_state file) c chk) < (limit_of c).max_sends
      → IsLeashed t (record_send sha1_hex c reason t file) (log ++ (c, t) ∷ [])
  own-IsLeashed reason clock chk t file log le le' h room =
      let state = load empty_state file in
      let before : live window chk (sends_of c file) ≡ live window chk (times_of c log) =
        h.known chk le in
      let after : sends_of c (record_send sha1_hex c reason t file)
          ≡ live window t (sends_of c file) ++ t ∷ [] =
        sends_of-record_send c reason t file h.can_write
        ∙ (unfold live_sends in rw (text_eq_refl c) refl) in
      let noted : times_of c (log ++ (c, t) ∷ []) ≡ times_of c log ++ t ∷ [] =
        times_of-append c c t log ∙ rw (text_eq_refl c) refl in
      record {
        can_write = unfold record_send in writable-save _ file ∙ h.can_write;
        known = λ now n.
            rw (after, noted, live-append, live-append, live-live window now t (sends_of c file) n)
              (ap (λ (xs : List ℕ). xs ++ live window now (t ∷ [])) (h.known now (omega arith)));
        capped = λ now n. rw noted (
            length-live_one_more window (limit_of c).max_sends chk t now (times_of c log)
              (omega arith) (rw (← before) (unfold live_sends in room)));
      }

  -- A page on another channel.
  other-IsLeashed :
      (d reason : List ℕ) (clock t : ℕ) (file : File State) (log : Log)
      → text_eq d c ≡ false
      → clock ≤ t
      → IsLeashed clock file log
      → IsLeashed t (record_send sha1_hex d reason t file) (log ++ (d, t) ∷ [])
  other-IsLeashed d reason clock t file log ne le h =
      let after : sends_of c (record_send sha1_hex d reason t file) ≡ sends_of c file =
        sends_of-record_send d reason t file h.can_write ∙ rw ne refl in
      let noted : times_of c (log ++ (d, t) ∷ []) ≡ times_of c log =
        times_of-append c d t log ∙ rw (ne, append-nil) refl in
      record {
        can_write = unfold record_send in writable-save _ file ∙ h.can_write;
        known = λ now n. rw (after, noted) (h.known now (omega arith));
        capped = λ now n. rw noted (h.capped now (omega arith));
      }

  -- A page on any channel that was let through at `chk`.
  recorded-IsLeashed :
      (d reason : List ℕ) (clock chk t : ℕ) (file : File State) (log : Log)
      → clock ≤ chk
      → chk ≤ t
      → IsLeashed clock file log
      → length (live_sends (load empty_state file) d chk) < (limit_of d).max_sends
      → IsLeashed t (record_send sha1_hex d reason t file) (log ++ (d, t) ∷ [])
  recorded-IsLeashed d reason clock chk t file log le le' h room = elim (Bool-cases (text_eq d c)) [
    | inl e ↦
        let same : d ≡ c = (text_eq_iff d c).0 e in
        rw same (
          own-IsLeashed reason clock chk t file log le le' h (
            subst
              (λ (x : List ℕ).
                length (live_sends (load empty_state file) x chk) < (limit_of x).max_sends)
              same room))
    | inr ne ↦ other-IsLeashed d reason clock t file log ne (omega arith) h
  ]

  module _ {ℓ} {W : Type ℓ} (send : List ℕ → List ℕ → W → Outcome (Bool × List ℕ) × W) where
    finish-IsLeashed :
        (d reason : List ℕ) (clock chk t : ℕ) (file : File State) (log : Log)
        (out : Outcome (Bool × List ℕ)) (w : W)
        → clock ≤ chk
        → chk ≤ t
        → IsLeashed clock file log
        → length (live_sends (load empty_state file) d chk) < (limit_of d).max_sends
        → let r = finish sha1_hex d reason t file (noted d t log (out, w)) in
          IsLeashed t r.file r.world.1
    finish-IsLeashed d reason clock chk t file log (returned (true, x)) w le le' h room =
        recorded-IsLeashed d reason clock chk t file log le le' h room
    finish-IsLeashed d reason clock chk t file log (returned (false, x)) w le le' h room =
        later-IsLeashed clock t file log (omega arith) h
    finish-IsLeashed d reason clock chk t file log (raised e) w le le' h room =
        later-IsLeashed clock t file log (omega arith) h

    perform-IsLeashed :
        (p : Page) (clock : ℕ) (file : File State) (w : W) (log : Log)
        → clock ≤ p.checked_at
        → p.checked_at ≤ p.recorded_at
        → IsLeashed clock file log
        → let r = perform sha1_hex send p file (w, log) in IsLeashed p.recorded_at r.file r.world.1
    unfolding escalate
    perform-IsLeashed p clock file w log le le' h =
        let reason = strip p.reason in
        let state = load empty_state file in
        let later = later-IsLeashed clock p.recorded_at file log (omega arith) h in
        elim (Bool-cases (is_empty reason)) [
          | inl blank ↦ rw blank later
          | inr said ↦ elim (Option-cases (allowed sha1_hex p.channel reason p.checked_at state)) [
            | inl ok ↦
                rw (said, ok)
                  (finish-IsLeashed p.channel reason clock p.checked_at p.recorded_at file log
                    (send p.channel reason w).0 (send p.channel reason w).1 le le' h
                    (allowed_room sha1_hex p.channel reason p.checked_at state ok))
            | inr (why, e) ↦ rw (said, e) later
          ]
        ]

    delivered-capped :
        (pages : List Page) (clock end : ℕ) (file : File State) (w : W) (log : Log)
        → Ordered clock pages end
        → IsLeashed clock file log
        → length (live window end (times_of c (delivered sha1_hex send pages file (w, log))))
          ≤ (limit_of c).max_sends
    unfolding delivered
    delivered-capped [] clock end file w log o h = h.capped end o
    delivered-capped (p ∷ pages) clock end file w log (le, le', o) h =
        let r = perform sha1_hex send p file (w, log) in
        delivered-capped pages p.recorded_at end r.file r.world.0 r.world.1 o
          (perform-IsLeashed p clock file w log le le' h)

    -- Over any escalations on any channels, in the order of their clock readings and beginning with a
    -- state file that can be written and holds no send of channel `c`, the carriers of `c` deliver at
    -- most `max_sends` pages in the window of `c`, whatever they answer.
    pub leash_holds :
        (pages : List Page) (end : ℕ) (file : File State) (w : W)
        → file.writable ≡ true
        → Dict.get (load empty_state file).sends c ≡ none
        → Ordered 0 pages end
        → length (
            keep
              (λ t. within end t (limit_of c).window)
              (times_of c (delivered sha1_hex send pages file (w, []))))
          ≤ (limit_of c).max_sends
    leash_holds pages end file w wr none_yet o =
        unfold live in
        delivered-capped pages 0 end file w [] o (record {
          can_write = wr;
          known = λ now _. rw none_yet refl;
          capped = λ now _. omega arith;
        })
