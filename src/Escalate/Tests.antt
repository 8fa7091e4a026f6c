-- ===== src/Escalate/Tests.antt =====
-- Runs of agent/escalate.py at concrete inputs.
use srechat.Prelude.{
  ℕ, suc, ◌≤◌, ◌≡◌, refl, Bool, true, false, none, List, [], ◌∷◌, arith, within, keep, length,
  Outcome, returned,
}
use srechat.Text.{codes, text_eq, strip, lower}
use srechat.Prelude.Window.{live}
use srechat.Disk.{File, load}
use srechat.Dict
use srechat.Escalate.Leash.{
  State, limit_of, allowed, escalate, channel_sent, channel_suppressed, duplicate,
}
use srechat.Escalate.Leash.Run.{Page, delivered, times_of}
use srechat.Escalate.Leash.Bounds.{leash_holds}
use srechat.Escalate.Leash.Once.{escalate_once}
use srechat.Escalate.Carriers.{Carrier}
use srechat.Escalate.Email.{Provider}

-- A digest for the tests: the text itself.
abbrev no_digest : List ℕ → List ℕ
no_digest text = text

abbrev new_file : File State
new_file = record { content = none; writable = true }

abbrev call : List ℕ
call = codes "call"

-- A carrier that delivers and counts, and one that does not.
abbrev delivers : List ℕ → ℕ → Outcome (Bool × List ℕ) × ℕ
delivers reason w = (returned (true, codes "ok"), suc w)

abbrev fails : List ℕ → ℕ → Outcome (Bool × List ℕ) × ℕ
fails reason w = (returned (false, codes "no answer"), w)

abbrev page : List ℕ → ℕ → Page
page reason t = record { channel = call; reason = reason; checked_at = t; recorded_at = t }

-- Three calls in half an hour and a little.
abbrev pages : List Page
pages =
    page (codes "region 0") 10
    ∷ (page (codes "region 1") 1000 ∷ (page (codes "region 2") 2000 ∷ []))

leash_holds_example :
    length (
      keep
        (λ t. within 2000 t (limit_of call).window)
        (times_of call (delivered no_digest (λ _. delivers) pages new_file (0, []))))
    ≤ (limit_of call).max_sends
unfolding load Dict.get Dict.empty
leash_holds_example =
    leash_holds no_digest call (λ _. delivers) pages 2000 new_file 0 refl refl
      (
        omega arith,
        omega arith,
        (omega arith, omega arith, (omega arith, omega arith, omega arith)),
      )

escalate_once_example :
    let r = escalate no_digest call (codes "Region 0 down") delivers 10 10 new_file 0 in
    (r.text ≡ returned (channel_sent call (codes "ok")))
    × (escalate no_digest call (codes " region 0 down") delivers 1000 1000 r.file 1 ≡ record {
      text = returned (channel_suppressed call (duplicate call 1000 10));
      file = r.file;
      world = 1;
    })
unfolding load Dict.get Dict.empty allowed limit_of text_eq strip lower live
escalate_once_example =
    escalate_once no_digest delivers call (codes "Region 0 down") (codes " region 0 down")
      (codes "ok") 10 10 1000 1000 new_file 0 1 refl refl refl refl refl refl (omega arith)

-- A carrier of a world that counts the requests, answering a status.
abbrev carrier_of : Bool → ℕ → Carrier ℕ
carrier_of available status = record {
  name = codes "carrier";
  available = available;
  send = λ text w. ((status, []), suc w);
}

abbrev good_chain : List (Carrier ℕ)
good_chain = carrier_of true 500 ∷ (carrier_of false 200 ∷ (carrier_of true 202 ∷ []))

abbrev bad_chain : List (Carrier ℕ)
bad_chain = carrier_of true 500 ∷ (carrier_of false 200 ∷ [])

abbrev provider_of : ℕ → Provider ℕ
provider_of status = record {
  name = codes "smtp";
  available = true;
  send = λ subject body w. (returned (status, []), suc w);
}
