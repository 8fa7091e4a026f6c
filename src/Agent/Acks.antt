-- ===== src/Agent/Acks.antt =====
-- agent/sre_agent.py: `note_awaiting_ack`, `acknowledge_all` and `escalate_unacknowledged`. The
-- incidents that wait for a reply are the dict `_awaiting_ack`. The predicate of an incident is
-- evaluated once at most, since the incident is deleted before: the model holds what it answers.
-- What `send` and `call_human` raise is swallowed, so that their texts are all that they are here.
pub mod Calls
use srechat.Prelude.{
  ℕ, ◌/◌, Bool, true, false, Option, none, some, List, [], ◌∷◌, ◌++◌, if◌then◌else◌, Outcome,
  returned, raised, within,
}
use srechat.Text.{codes, show, text_eq}
use srechat.Dict
use srechat.Dict.{Dict}

pub record Pending : Type 0 where
  pub noted_at : ℕ
  pub summary : List ℕ
  pub still_broken : Option (Outcome Bool)

-- A text to the owner in chat, and a call of the function `call_human`, whose limits may still suppress it.
pub data Effect : Type 0 where
  chat_effect : List ℕ → Effect
  call_human_effect : List ℕ → Effect

unfoldable pub note_awaiting_ack :
    List ℕ → List ℕ → Option (Outcome Bool) → ℕ → Dict Pending → Dict Pending
note_awaiting_ack key summary still_broken now pending =
    Dict.put pending key (record { noted_at = now; summary = summary; still_broken = still_broken })

unfoldable pub acknowledge_all : List ℕ → List ℕ → Dict Pending → Dict Pending
acknowledge_all owner who pending = if text_eq who owner then Dict.empty else pending

abbrev pub recovered_note : List ℕ → List ℕ
recovered_note key =
    codes "✅ " ++ (key ++ codes " recovered on its own before I called you. No phone call sent.")

abbrev pub no_reply : ℕ → List ℕ → List ℕ
no_reply timeout summary =
    codes "No reply in chat for " ++ (show (timeout / 60) ++ (codes " minutes. " ++ summary))

-- The last step for an incident that is due: a predicate that says `False` is the only way not to
-- ask for a phone call; one that raises counts as still broken.
unfoldable pub due_effect : ℕ → List ℕ → List ℕ → Option (Outcome Bool) → Effect
due_effect timeout key summary none = call_human_effect (no_reply timeout summary)
due_effect timeout key summary (some (raised exc)) = call_human_effect (no_reply timeout summary)
due_effect timeout key summary (some (returned broken)) =
    if broken
    then call_human_effect (no_reply timeout summary)
    else chat_effect (recovered_note key)

-- The loop of `escalate_unacknowledged` over the items: those that still wait, and the effects.
unfoldable pub escalate_items :
    ℕ → ℕ → List (List ℕ × Pending) → List (List ℕ × Pending) × List Effect
unfolding due_effect
escalate_items timeout now [] = ([], [])
escalate_items timeout now ((key, p) ∷ items) =
    let rest = escalate_items timeout now items in
    if within now p.noted_at timeout
    then ((key, p) ∷ rest.0, rest.1)
    else (rest.0, due_effect timeout key p.summary p.still_broken ∷ rest.1)

unfoldable pub escalate_unacknowledged : ℕ → ℕ → Dict Pending → Dict Pending × List Effect
unfolding escalate_items
escalate_unacknowledged timeout now pending =
    let r = escalate_items timeout now pending.items in (record { items = r.0 }, r.1)
