-- ===== src/Agent/Loop.antt =====
-- agent/sre_agent.py: `main`, from the conversations that it polls to the watchdog and the sweep of each
-- round. `W` is the state of the world and of the rest of the agent. What a message starts is an `Act`.
pub mod Once
pub mod Watched
mod Tests
use srechat.Prelude.{
  ℕ, zero, suc, ◌+◌, max, Bool, true, false, not, ◌||◌, Option, none, some, List, [], ◌∷◌, ◌++◌,
  leb, if◌then◌else◌, Outcome, returned, raised,
}
use srechat.Text.{codes, starts_with, text_eq}
use srechat.Dict
use srechat.Dict.{Dict}

-- A message of the API: `sender` is none where the key is missing.
pub record Message : Type 0 where
  pub id : ℕ
  pub sender : Option (List ℕ)
  pub is_text : Bool
  pub text : List ℕ

-- `triage_signal(text)`, `acknowledge_all(sender)` and `handle(sender, text)`.
pub data Act : Type 0 where
  triage_act : List ℕ → Act
  acknowledge_act : List ℕ → Act
  handle_act : List ℕ → List ℕ → Act

-- What a new message starts; a message with no sender raises, but not where it is skipped before.
abbrev pub acts_of : List ℕ → List ℕ → Option (List ℕ) → List ℕ → Outcome (List Act)
acts_of agent webhook none text =
    if starts_with (codes "::heartbeat::") text then returned [] else raised (codes "'sender'")
acts_of agent webhook (some sender) text = returned (
    if text_eq sender agent || starts_with (codes "::heartbeat::") text
    then []
    else if text_eq sender webhook
    then triage_act text ∷ []
    else acknowledge_act sender ∷ handle_act sender text ∷ [])

unfoldable pub route : List ℕ → List ℕ → Message → Outcome (List Act)
unfolding text_eq starts_with
route agent webhook m = if m.is_text then acts_of agent webhook m.sender m.text else returned []

-- The highest id that was taken from each peer, and the world.
pub record Poll (W : Type 0) : Type 0 where
  pub seen : Dict ℕ
  pub world : W

abbrev pub seen_or_zero : Option ℕ → ℕ
seen_or_zero none = 0
seen_or_zero (some n) = n

unfoldable pub seen_of : {W : Type 0} → List ℕ → Poll W → ℕ
seen_of peer s = seen_or_zero (Dict.get s.seen peer)

-- A call that may raise, and the one behind it, which is left out then.
abbrev pub and_next :
    {S : Type 0} → Outcome (Unit {0}) × S → (S → Outcome (Unit {0}) × S) → Outcome (Unit {0}) × S
and_next (raised exc, s) next = (raised exc, s)
and_next (returned u, s) next = next s

-- `seen` from the conversations there are at the start, each with its peer and its latest message.
unfoldable pub start_seen : List (Option (List ℕ) × Option ℕ) → Dict ℕ → Dict ℕ
start_seen [] seen = seen
start_seen ((some peer, some latest) ∷ conversations) seen =
    start_seen conversations (Dict.put seen peer latest)
start_seen ((some peer, none) ∷ conversations) seen = start_seen conversations seen
start_seen ((none, latest) ∷ conversations) seen = start_seen conversations seen

unfoldable pub perform :
    {W : Type 0} → (Act → W → Outcome (Unit {0}) × W) → List Act → W → Outcome (Unit {0}) × W
perform act [] w = (returned tt, w)
perform act (a ∷ acts) w = and_next (act a w) (perform act acts)

abbrev pub perform_routed :
    {W : Type 0}
    → (Act → W → Outcome (Unit {0}) × W)
    → Outcome (List Act)
    → W
    → Outcome (Unit {0}) × W
perform_routed act (raised exc) w = (raised exc, w)
perform_routed act (returned acts) w = perform act acts w

abbrev pub on_world : {W : Type 0} → Dict ℕ → Outcome (Unit {0}) × W → Outcome (Unit {0}) × Poll W
on_world seen r = (r.0, record { seen = seen; world = r.1 })

module _ {W : Type 0} (agent webhook : List ℕ) (act : Act → W → Outcome (Unit {0}) × W) where
  -- The body of the loop over the messages of a peer.
  unfoldable pub read_message : List ℕ → Message → Poll W → Outcome (Unit {0}) × Poll W
  unfolding seen_of route perform
  read_message peer m s =
      let seen = Dict.put s.seen peer (max (seen_of peer s) m.id) in
      if leb m.id (seen_of peer s)
      then (returned tt, s)
      else on_world seen (perform_routed act (route agent webhook m) s.world)

  unfoldable pub read_messages : List ℕ → List Message → Poll W → Outcome (Unit {0}) × Poll W
  unfolding read_message
  read_messages peer [] s = (returned tt, s)
  read_messages peer (m ∷ ms) s = and_next (read_message peer m s) (read_messages peer ms)

  module _ (fetch_messages : List ℕ → Option ℕ → W → Outcome (List Message) × W) where
    abbrev pub read_fetched :
        List ℕ → Dict ℕ → Outcome (List Message) × W → Outcome (Unit {0}) × Poll W
    read_fetched peer seen (raised exc, w) = (raised exc, record { seen = seen; world = w })
    read_fetched peer seen (returned ms, w) =
        read_messages peer ms (record { seen = seen; world = w })

    -- One conversation: none has no peer, and the agent does not talk to itself.
    abbrev pub read_peer : Option (List ℕ) → Poll W → Outcome (Unit {0}) × Poll W
    read_peer none s = (returned tt, s)
    read_peer (some peer) s =
        if text_eq peer agent
        then (returned tt, s)
        else read_fetched peer s.seen (fetch_messages peer (Dict.get s.seen peer) s.world)

    unfoldable pub read_peers : List (Option (List ℕ)) → Poll W → Outcome (Unit {0}) × Poll W
    unfolding read_messages text_eq
    read_peers [] s = (returned tt, s)
    read_peers (peer ∷ peers) s = and_next (read_peer peer s) (read_peers peers)

    module _ (fetch_conversations : W → Outcome (List (Option (List ℕ))) × W) where
      abbrev pub read_all :
          Dict ℕ → Outcome (List (Option (List ℕ))) × W → Outcome (Unit {0}) × Poll W
      read_all seen (raised exc, w) = (raised exc, record { seen = seen; world = w })
      read_all seen (returned peers, w) = read_peers peers (record { seen = seen; world = w })

      unfoldable pub poll : Poll W → Outcome (Unit {0}) × Poll W
      unfolding read_peers
      poll s = read_all s.seen (fetch_conversations s.world)

-- The variables of `main`.
pub record Loop (W : Type 0) : Type 0 where
  pub chat : Poll W
  pub last_watch : ℕ
  pub last_sweep : ℕ

-- The watchdog is due in this round, when the chat has been polled.
unfoldable pub is_watch_due :
    {W : Type 0} → (Poll W → Outcome (Unit {0}) × Poll W) → (W → ℕ) → ℕ → Loop W → Bool
is_watch_due poll clock watch_seconds s =
    leb (s.last_watch + watch_seconds) (clock ((poll s.chat).1.world))

module _ {W : Type 0} (poll : Poll W → Outcome (Unit {0}) × Poll W)
    (watch sweep escalate : W → Outcome (Unit {0}) × W) (clock : W → ℕ) (sleep : W → W)
    (watch_seconds sweep_seconds : ℕ) where
  abbrev pub watched_world : Loop W → W
  watched_world s =
      let w = (poll s.chat).1.world in
      if is_watch_due poll clock watch_seconds s then (watch w).1 else w

  abbrev pub is_sweep_due : Loop W → Bool
  is_sweep_due s = leb (s.last_sweep + sweep_seconds) (clock (watched_world s))

  -- One round of the loop of `main`. What raises is logged, and the round goes on.
  unfoldable pub round : Loop W → Loop W
  unfolding is_watch_due
  round s =
      let p = (poll s.chat).1 in
      let w = watched_world s in
      let w' = if is_sweep_due s then (escalate ((sweep w).1)).1 else w in
      record {
        chat = record { seen = p.seen; world = sleep w' };
        last_watch =
            if is_watch_due poll clock watch_seconds s then clock p.world else s.last_watch;
        last_sweep = if is_sweep_due s then clock w else s.last_sweep;
      }

  unfoldable pub rounds : ℕ → Loop W → Loop W
  unfolding round
  rounds zero s = s
  rounds (suc n) s = rounds n (round s)
