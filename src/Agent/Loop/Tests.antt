-- ===== src/Agent/Loop/Tests.antt =====
-- Runs of the loop of `main`.
use srechat.Prelude.{
  ℕ, suc, ◌+◌, ◌<◌, ◌≡◌, refl, true, Option, some, List, [], ◌∷◌, ◌++◌, arith, Outcome, returned,
  raised,
}
use srechat.Text.{codes}
use srechat.Dict
use srechat.Agent.Loop.{
  Message, Act, triage_act, acknowledge_act, handle_act, Poll, read_message, read_messages, poll,
  Loop, rounds,
}
use srechat.Agent.Loop.Once.{at_once, read_message-rounds}
use srechat.Agent.Loop.Watched.{Grows, Forward, rounds-watched}

abbrev me : List ℕ
me = codes "sre-agent-0"

abbrev webhook : List ℕ
webhook = codes "webhook"

abbrev hello : Message
hello = record { id = 7; sender = some (codes "joseph"); is_text = true; text = codes "hello" }

abbrev from_webhook : Message
from_webhook = record {
  id = 8;
  sender = some (codes "webhook");
  is_text = true;
  text = codes "disk full";
}

abbrev beat : Message
beat = record {
  id = 9;
  sender = some (codes "sre-agent-1");
  is_text = true;
  text = codes "::heartbeat::1";
}

-- A world that keeps what was started.
abbrev note : Act → List Act → Outcome (Unit {0}) × List Act
note a w = (returned tt, w ++ a ∷ [])

-- A heartbeat starts nothing, a webhook's message acknowledges nothing, and a repeated message is skipped.
started :
    ((read_messages me webhook note
      (codes "ops")
      (hello ∷ from_webhook ∷ beat ∷ hello ∷ [])
      (record { seen = Dict.empty; world = [] })).1
    ).world
    ≡ acknowledge_act (codes "joseph")
      ∷ handle_act (codes "joseph") (codes "hello")
      ∷ triage_act (codes "disk full")
      ∷ []
unfolding read_messages Dict.get Dict.empty Dict.put
started = refl

-- A world of a clock and the count of the looks, and a chat that is down.
abbrev World : Type 0
World = ℕ × ℕ

abbrev breaks : Act → World → Outcome (Unit {0}) × World
breaks a w = (raised (codes "502"), w)

abbrev no_messages : List ℕ → Option ℕ → World → Outcome (List Message) × World
no_messages peer after w = (raised (codes "502"), w)

abbrev no_conversations : World → Outcome (List (Option (List ℕ))) × World
no_conversations w = (raised (codes "502"), w)

abbrev look : World → Outcome (Unit {0}) × World
look w = (raised (codes "probe"), (w.0, suc w.1))

abbrev nothing : World → Outcome (Unit {0}) × World
nothing w = (returned tt, w)

abbrev clock : World → ℕ
clock w = w.0

abbrev sleep : World → World
sleep w = (w.0 + 2, w.1)

abbrev chat_down : Poll World → Outcome (Unit {0}) × Poll World
chat_down s = poll me webhook breaks no_messages no_conversations s

abbrev fresh : Loop World
fresh = record {
  chat = record { seen = Dict.empty; world = (1000, 0) };
  last_watch = 0;
  last_sweep = 0;
}

read_message-rounds_example :
    let t =
      (rounds chat_down look nothing nothing clock sleep 30 300 3 (record fresh {
        chat = (read_message me webhook breaks (codes "joseph") hello fresh.chat).1;
      })).chat in
    read_message me webhook breaks (codes "joseph") hello t ≡ (returned tt, t)
read_message-rounds_example =
    read_message-rounds me webhook breaks no_messages no_conversations look nothing nothing clock
      sleep 30 300 (codes "joseph") hello fresh.chat
      (record fresh { chat = (read_message me webhook breaks (codes "joseph") hello fresh.chat).1 })
      3 (at_once refl)

chat_down-clock : Grows chat_down look nothing nothing clock sleep 30 300 clock
unfolding poll
chat_down-clock = record {
  by_poll = λ s. omega arith;
  by_watch = λ w. omega arith;
  by_sweep = λ w. omega arith;
  by_escalate = λ w. omega arith;
  by_sleep = λ w. omega arith;
}

abbrev looks : World → ℕ
looks w = w.1

chat_down-looks : Grows chat_down look nothing nothing clock sleep 30 300 looks
unfolding poll
chat_down-looks = record {
  by_poll = λ s. omega arith;
  by_watch = λ w. omega arith;
  by_sweep = λ w. omega arith;
  by_escalate = λ w. omega arith;
  by_sleep = λ w. omega arith;
}

look-counts : (w : World) → looks w < looks ((look w).1)
look-counts w = omega arith

chat_down-Forward : Forward chat_down look nothing nothing clock sleep 30 300
chat_down-Forward = record { clock_grows = chat_down-clock; sleeps = λ w. omega arith }

rounds-watched_example :
    let t = rounds chat_down look nothing nothing clock sleep 30 300 5 fresh in
    looks t.chat.world
    < looks (rounds chat_down look nothing nothing clock sleep 30 300 31 t).chat.world
rounds-watched_example =
    rounds-watched chat_down look nothing nothing clock sleep 30 300 looks chat_down-looks
      look-counts chat_down-Forward 5 fresh (omega arith)
