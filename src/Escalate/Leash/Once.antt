-- ===== src/Escalate/Leash/Once.antt =====
-- agent/escalate.py: one escalation, and the next for the same reason.
use srechat.Prelude.{
  ℕ, ◌+◌, ◌<◌, ◌≡◌, refl, Bool, true, false, none, some, List, arith, is_empty, length, Outcome,
  returned,
}
use srechat.Text.{text_eq_refl, strip, lower, strip_by-strip_by, is_space}
use srechat.Disk.{File, load, load-save}
use srechat.Dict
use srechat.Dict.{get-put}
use srechat.Escalate.Leash.{
  State, empty_state, limit_of, live_sends, allowed, dedupe_key, dedupe_seconds, recorded,
  record_send, escalate, duplicate, channel_suppressed, channel_sent,
}

module _ (sha1_hex : List ℕ → List ℕ) where
  -- An escalation is let through only where its channel has room in its window.
  pub allowed_room :
      (channel reason : List ℕ) (now : ℕ) (state : State)
      → allowed sha1_hex channel reason now state ≡ none
      → length (live_sends state channel now) < (limit_of channel).max_sends
  unfolding allowed
  allowed_room channel reason now state h = ground arith

  fingerprint_same :
      (channel reason reason' : List ℕ)
      → lower (strip reason') ≡ lower (strip reason)
      → dedupe_key sha1_hex channel (strip reason') ≡ dedupe_key sha1_hex channel (strip reason)
  unfolding dedupe_key strip
  fingerprint_same channel reason reason' h =
      rw (strip_by-strip_by is_space reason', strip_by-strip_by is_space reason, h) refl

  allowed_told :
      (channel reason : List ℕ) (now told : ℕ) (state : State)
      → Dict.get state.last (dedupe_key sha1_hex channel reason) ≡ some told
      → now < told + dedupe_seconds
      → allowed sha1_hex channel reason now state ≡ some (duplicate channel now told)
  unfolding allowed
  allowed_told channel reason now told state h lt = ground arith

  -- What `record` leaves for a reason that reads the same.
  last_told :
      (channel reason reason' : List ℕ) (u : ℕ) (file : File State)
      → file.writable ≡ true
      → lower (strip reason') ≡ lower (strip reason)
      → Dict.get
          (load empty_state (record_send sha1_hex channel (strip reason) u file)).last
          (dedupe_key sha1_hex channel (strip reason'))
        ≡ some u
  unfolding record_send
  last_told channel reason reason' u file wr same =
      let key = dedupe_key sha1_hex channel (strip reason) in
      let state = load empty_state file in
      rw
        (
          fingerprint_same channel reason reason' same,
          load-save empty_state (recorded sha1_hex channel (strip reason) u state) file wr,
        )
        (rw (get-put state.last key key u, text_eq_refl key) refl)

  module _ {ℓ} {W : Type ℓ} (send : List ℕ → W → Outcome (Bool × List ℕ) × W) where
    -- Once an escalation was let through and delivered, with a state file that can be written, one with
    -- the same reason, up to letter case and surrounding white space and neither blank, is suppressed on that channel for `dedupe_seconds`: no carrier is
    -- called and nothing is recorded.
    pub escalate_once :
        (channel reason reason' detail : List ℕ) (t u t' u' : ℕ) (file : File State) (w w' : W)
        → file.writable ≡ true
        → is_empty (strip reason) ≡ false
        → is_empty (strip reason') ≡ false
        → allowed sha1_hex channel (strip reason) t (load empty_state file) ≡ none
        → (send (strip reason) w).0 ≡ returned (true, detail)
        → lower (strip reason') ≡ lower (strip reason)
        → t' < u + dedupe_seconds
        → let r = escalate sha1_hex channel reason send t u file w in
          (r.text ≡ returned (channel_sent channel detail))
          × (escalate sha1_hex channel reason' send t' u' r.file w' ≡ record {
            text = returned (channel_suppressed channel (duplicate channel t' u));
            file = r.file;
            world = w';
          })
    unfolding escalate
    escalate_once channel reason reason' detail t u t' u' file w w' wr nb nb' ok went same lt =
        let state = load empty_state file in
        let file' = record_send sha1_hex channel (strip reason) u file in
        let told : allowed sha1_hex channel (strip reason') t' (load empty_state file')
            ≡ some (duplicate channel t' u) =
          allowed_told channel (strip reason') t' u (load empty_state file')
            (last_told channel reason reason' u file wr same) lt in
        ground (arith, told)

    -- A carrier that answers that it failed leaves the budget alone: nothing is recorded.
    pub escalate_failed :
        (channel reason detail : List ℕ) (t u : ℕ) (file : File State) (w : W)
        → (send (strip reason) w).0 ≡ returned (false, detail)
        → (escalate sha1_hex channel reason send t u file w).file ≡ file
    unfolding escalate
    escalate_failed channel reason detail t u file w h = ground arith
