-- ===== src/Escalate/Leash.antt =====
-- agent/escalate.py, `LIMITS` to `record` and `_escalate`. Times are whole seconds. The state file
-- has two kinds of values, the send times of a channel and the time of the last send of a reason:
-- they are two dicts here. `sha1_hex` is the digest of the library.
mod Replies
pub mod Once
pub mod Run
pub mod Bounds
unfoldable pub use Replies.*
use srechat.Prelude.{
  ℕ, ◌+◌, ◌-◌, Bool, true, false, not, ◌&&◌, Option, none, some, List, [], ◌∷◌, ◌++◌, leb, ltb,
  ◌==◌, within, if◌then◌else◌, length, take, keep, is_empty, max, Outcome, returned, raised,
}
use srechat.Prelude.Window.{live}
use srechat.Text.{codes, text_eq, strip, lower}
use srechat.Disk.{File, load, save}
use srechat.Dict
use srechat.Dict.{Dict}

pub record Limit : Type 0 where
  pub max_sends : ℕ
  pub window : ℕ
  pub min_gap : ℕ

abbrev pub make_limit : ℕ → ℕ → ℕ → Limit
make_limit n w g = record { max_sends = n; window = w; min_gap = g }

-- `LIMITS.get(channel, (5, 3600, 60))`.
unfoldable pub limit_of : List ℕ → Limit
limit_of channel =
    if text_eq channel (codes "push")
    then make_limit 20 3600 0
    else if text_eq channel (codes "sms")
    then make_limit 6 3600 120
    else if text_eq channel (codes "call")
    then make_limit 2 3600 900
    else if text_eq channel (codes "email")
    then make_limit 20 3600 0
    else make_limit 5 3600 60

abbrev pub dedupe_seconds : ℕ
dedupe_seconds = 1800

pub record State : Type 0 where
  pub sends : Dict (List ℕ)
  pub last : Dict ℕ

abbrev pub empty_state : State
empty_state = record { sends = Dict.empty; last = Dict.empty }

-- What an escalation gives back: its line, or what it raises, the file and the carriers' state.
pub record Reply {ℓ} (W : Type ℓ) : Type ℓ where
  pub text : Outcome (List ℕ)
  pub file : File State
  pub world : W

abbrev pub sends_or_none : Option (List ℕ) → List ℕ
sends_or_none none = []
sends_or_none (some times) = times

-- The sends of a channel that are still inside its window.
unfoldable pub live_sends : State → List ℕ → ℕ → List ℕ
live_sends state channel now =
    live (limit_of channel).window now (sends_or_none (Dict.get state.sends channel))

abbrev pub latest : List ℕ → ℕ
latest [] = 0
latest (t ∷ times) = max t (latest times)

-- `allowed`: `none` is `(True, "")`, and `some why` is `(False, why)`.
abbrev pub rate_reply : List ℕ → Limit → List ℕ → ℕ → Option (List ℕ)
rate_reply channel limit sends now =
    if leb limit.max_sends (length sends)
    then some (rate_limited (length sends) channel limit.window limit.max_sends)
    else if (not (is_empty sends) && not (limit.min_gap == 0))
        && within now (latest sends) limit.min_gap
    then some (too_soon channel (latest sends + limit.min_gap - now) limit.min_gap)
    else none

abbrev pub dedupe_reply : List ℕ → Option ℕ → ℕ → Option (List ℕ) → Option (List ℕ)
dedupe_reply channel none now rest = rest
dedupe_reply channel (some told) now rest =
    if within now told dedupe_seconds then some (duplicate channel now told) else rest

module _ (sha1_hex : List ℕ → List ℕ) where
  -- `_fingerprint`.
  unfoldable pub fingerprint : List ℕ → List ℕ
  fingerprint reason = take 16 (sha1_hex (lower (strip reason)))

  -- `f"dedupe:{channel}:{_fingerprint(reason)}"`.
  unfoldable pub dedupe_key : List ℕ → List ℕ → List ℕ
  unfolding fingerprint
  dedupe_key channel reason = codes "dedupe:" ++ (channel ++ (codes ":" ++ fingerprint reason))

  unfoldable pub allowed : List ℕ → List ℕ → ℕ → State → Option (List ℕ)
  unfolding live_sends
  allowed channel reason now state =
      dedupe_reply channel (Dict.get state.last (dedupe_key channel reason)) now
        (rate_reply channel (limit_of channel) (live_sends state channel now) now)

  unfoldable pub recorded : List ℕ → List ℕ → ℕ → State → State
  unfolding live_sends
  recorded channel reason now state = record {
    sends = Dict.put state.sends channel (live_sends state channel now ++ now ∷ []);
    last = Dict.put state.last (dedupe_key channel reason) now;
  }

  -- `record` on the file.
  unfoldable pub record_send : List ℕ → List ℕ → ℕ → File State → File State
  unfolding recorded
  record_send channel reason now file =
      save (recorded channel reason now (load empty_state file)) file

  module _ {ℓ} {W : Type ℓ} where
    -- The carrier's answer: whether it delivered, and the detail.
    abbrev pub finish : List ℕ → List ℕ → ℕ → File State → Outcome (Bool × List ℕ) × W → Reply W
    finish channel reason recorded_at file (returned (true, detail), w) = record {
      text = returned (channel_sent channel detail);
      file = record_send channel reason recorded_at file;
      world = w;
    }
    finish channel reason recorded_at file (returned (false, detail), w) = record {
      text = returned (channel_failed channel detail);
      file = file;
      world = w;
    }
    finish channel reason recorded_at file (raised e, w) = record {
      text = raised e;
      file = file;
      world = w;
    }

    abbrev pub if_allowed :
        Option (List ℕ)
        → List ℕ
        → List ℕ
        → (List ℕ → W → Outcome (Bool × List ℕ) × W)
        → ℕ
        → File State
        → W
        → Reply W
    if_allowed (some why) channel reason send recorded_at file w = record {
      text = returned (channel_suppressed channel why);
      file = file;
      world = w;
    }
    if_allowed none channel reason send recorded_at file w =
        finish channel reason recorded_at file (send reason w)

    -- `_escalate`: the clock is read by `allowed` and, after the carrier, by `record`.
    unfoldable pub escalate :
        List ℕ
        → List ℕ
        → (List ℕ → W → Outcome (Bool × List ℕ) × W)
        → ℕ
        → ℕ
        → File State
        → W
        → Reply W
    escalate channel reason send checked_at recorded_at file w =
        let reason' = strip reason in
        if is_empty reason'
        then record { text = returned no_reason; file = file; world = w }
        else if_allowed (allowed channel reason' checked_at (load empty_state file)) channel reason'
            send recorded_at file w
