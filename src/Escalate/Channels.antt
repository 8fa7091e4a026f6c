-- ===== src/Escalate/Channels.antt =====
-- agent/escalate.py: `push_notify_human`, `sms_human` and `call_human`, and what `status` counts.
use srechat.Prelude.{
  ℕ, ◌/◌, Bool, true, false, Option, List, [], ◌∷◌, ◌++◌, ◌==◌, if◌then◌else◌, take, length,
  Outcome, returned, raised,
}
use srechat.Text.{codes, join, show}
use srechat.Disk.{File, load}
use srechat.Escalate.Leash.{State, Reply, empty_state, limit_of, live_sends, escalate}
use srechat.Escalate.Carriers.{
  Credentials, Request, Answer, telnyx_available, twilio_available, is_set, try_carriers,
}

-- A registered phone: its token and the environment of its record.
pub record Device : Type 0 where
  pub token : List ℕ
  pub env : Option (List ℕ)

module _ {W : Type 0} (push : Device → List ℕ → W → Outcome Answer × W) where
  abbrev device_result : Device → Answer → List ℕ
  device_result d (status, body) = take 8 d.token ++ (codes "…=" ++ show status)

  abbrev apns_detail : List (List ℕ) → List ℕ
  apns_detail results = codes "apns (" ++ (join (codes ", ") results ++ codes ")")

  -- The loop over the phones: it ends at the first that answers 200.
  push_devices : List Device → List ℕ → List (List ℕ) → W → Outcome (Bool × List ℕ) × W
  push_devices [] text results w = (returned (false, apns_detail results), w)
  push_devices (d ∷ devices) text results w =
      let (out, w') = push d text w in
      elim out [
        | raised e ↦ (raised e, w')
        | returned answer ↦
            let results' = results ++ device_result d answer ∷ [] in
            let rest = push_devices devices text results' w' in
            if answer.0 == 200 then (returned (true, apns_detail results'), w') else rest
      ]

  -- The `send` of `push_notify_human`; `devices` and `enabled` are what `owner_devices` and
  -- `apns.enabled` give.
  unfoldable pub push_send : List Device → Bool → List ℕ → W → Outcome (Bool × List ℕ) × W
  unfolding push_devices
  push_send [] enabled text w =
      (returned (false, codes "no registered device (open SREChat once to register it)"), w)
  push_send (d ∷ devices) false text w =
      (returned (false, codes "APNs not configured on this host"), w)
  push_send (d ∷ devices) true text w = push_devices (d ∷ devices) text [] w

module _ {W : Type 0} (sha1_hex : List ℕ → List ℕ) where
  unfoldable pub push_notify_human :
      (Device → List ℕ → W → Outcome Answer × W)
      → List Device
      → Bool
      → List ℕ
      → ℕ
      → ℕ
      → File State
      → W
      → Reply W
  unfolding escalate push_send
  push_notify_human push devices enabled reason =
      escalate sha1_hex (codes "push") reason (push_send push devices enabled)

  module _ (c : Credentials) (quote : List ℕ → List ℕ) (post : Request → W → Answer × W) where
    -- `lambda text: _try_carriers(kind, text)`.
    abbrev pub by_carriers : List ℕ → List ℕ → W → Outcome (Bool × List ℕ) × W
    by_carriers kind text w =
        let (answer, w') = try_carriers c quote post kind text w in (returned answer, w')

    unfoldable pub sms_human : List ℕ → ℕ → ℕ → File State → W → Reply W
    unfolding escalate try_carriers
    sms_human reason = escalate sha1_hex (codes "sms") reason (by_carriers (codes "sms"))

    unfoldable pub call_human : List ℕ → ℕ → ℕ → File State → W → Reply W
    unfolding escalate try_carriers
    call_human reason = escalate sha1_hex (codes "call") reason (by_carriers (codes "call"))

-- `status`: what can reach the human, and how much of each budget is used.
abbrev ready : Bool → List ℕ
ready b = if b then codes "ready" else codes "unconfigured"

abbrev budget_line : State → ℕ → List ℕ → List ℕ
budget_line state now channel =
    channel
    ++ (codes ": "
        ++ (show (length (live_sends state channel now))
            ++ (codes "/"
                ++ (show (limit_of channel).max_sends
                    ++ (codes " used in the last "
                        ++ (show ((limit_of channel).window / 60) ++ codes "min"))))))

unfoldable pub status : Credentials → ℕ → File State → List ℕ
unfolding live_sends limit_of telnyx_available twilio_available
status c now file =
    let line = budget_line (load empty_state file) now in
    join (codes "\n") (
      (codes "human phone: " ++ (if is_set c.human_phone then codes "set" else codes "NOT SET"))
      ∷ (codes "telnyx: " ++ ready (telnyx_available c))
      ∷ (codes "twilio: " ++ ready (twilio_available c))
      ∷ line (codes "push")
      ∷ line (codes "sms")
      ∷ line (codes "call")
      ∷ line (codes "email")
      ∷ [])
