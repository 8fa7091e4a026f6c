-- ===== src/Agent/Tests.antt =====
-- Runs of agent/sre_agent.py at concrete inputs.
use srechat.Prelude.{
  ℕ, zero, suc, ◌+◌, ◌%◌, ◌≤◌, ◌≡◌, refl, Bool, true, false, not, ◌||◌, ◌&&◌, none, some, List, [],
  ◌∷◌, arith, All, all, map, keep, ltb, length, Outcome, Option, returned, raised, within,
}
use srechat.Text.{codes, starts_with, text_eq}
use srechat.Disk.{File, load, save}
use srechat.Dict
use srechat.Dict.{Dict}
use srechat.Incidents
use srechat.Incidents.{Sender, is_open, opened, deliver, email_sent, email_failed}
use srechat.Agent.Tools.{
  is_in, choose_tool, escalation_tools, mutating_tools, product_tools, investigation_tools,
  signal_tools, local_repair_tools, sweep_tools, tool_names,
}
use srechat.Agent.Tools.Authority.{is_reading, may_route, choose_tool-may, tool_tables}
use srechat.Agent.Signals.{signal_fingerprint, signal_is_duplicate}
use srechat.Agent.Signals.Quiet.{heard, signal_quiet}
use srechat.Investigate.{Answer, Message, Schema, ToolCall}
use srechat.Agent.Api.{api, no_host}
use srechat.Agent.Api.Failover.{Ended, api-Ended}
use srechat.Agent.Acks.{Pending, escalate_unacknowledged}
use srechat.Agent.Acks.Calls.{calls, message_of, must_call, calls-escalate_unacknowledged}
use srechat.Agent.Liveness.{agent_alive, primary_reporter, refresh_agent_liveness}
use srechat.Agent.Liveness.Reporters.{primary_reporter_ring}
use srechat.Agent.Liveness.Sightings.{last_seen, seen_at, refresh_freshest}
use srechat.Agent.Watch.{sms_effect, Watch, RegionLook, region_key, debounced}
use srechat.Agent.Watch.Debounce.{good_look, bad_look, look_at, bad_looks, watch_region_debounce}
use srechat.Agent.Watch.Host.{multi_region_looks, multi_region_text, multi_region_looks_once}
use srechat.Agent.Watch.Tracking.{alerts, watched, watch_region_tracked}
use srechat.Agent.Alerts.{incident_of, flap_incident}
use srechat.Agent.Alerts.Ledger.{alerted, alert_closes}

choose_tool-may_example :
    may_route true false (choose_tool true false (codes "please restart caddy")) ≡ true
choose_tool-may_example = choose_tool-may true false (codes "please restart caddy")

tool_tables_example :
    (all is_reading (signal_tools true true) ≡ true)
    × (all (λ name. not (is_in name escalation_tools)) (investigation_tools true true) ≡ true)
    × (all (λ name. not (is_in name product_tools)) (local_repair_tools true true) ≡ true)
    × (all
          (λ name. not (is_in name (codes "restart" ∷ codes "shell" ∷ [])))
          (sweep_tools true true (codes "unresolved Sentry issues"))
        ≡ true)
    × (all (λ name. not (is_in name mutating_tools) || (true || true)) (tool_names true true)
        ≡ true)
tool_tables_example = tool_tables true true

-- A digest for the tests: the text itself.
abbrev no_digest : List ℕ → List ℕ
no_digest text = text

signal_quiet_example :
    (signal_is_duplicate no_digest 900 (codes "event 17") 1500 (
      heard no_digest 900
        ((1000, codes "other") ∷ [])
        (signal_is_duplicate no_digest 900 (codes "event 9") 800 Dict.empty).1)).0
    ≡ true
unfolding signal_fingerprint
signal_quiet_example =
    signal_quiet no_digest 900 (codes "event 9") (codes "event 17") 800 1500
      ((1000, codes "other") ∷ []) Dict.empty refl (omega arith, omega arith) (omega arith)

-- Two incidents: one whose predicate raises, and one that recovered.
abbrev two_pending : Dict Pending
two_pending =
    Dict.put
      (Dict.put Dict.empty (codes "region-0") (record {
        noted_at = 100;
        summary = codes "down";
        still_broken = some (raised (codes "timeout"));
      }))
      (codes "region-1")
      (record { noted_at = 100; summary = codes "down"; still_broken = some (returned false) })

calls-escalate_unacknowledged_example :
    (calls (escalate_unacknowledged 600 800 two_pending).1
      ≡ map (message_of 600 800) (keep (must_call 600 800) two_pending.items))
    × ((escalate_unacknowledged 600 800 two_pending).0.items
        ≡ keep (λ item. within 800 item.1.noted_at 600) two_pending.items)
calls-escalate_unacknowledged_example = calls-escalate_unacknowledged 600 800 two_pending

primary_reporter_ring_example :
    (primary_reporter 180 1000 Dict.empty 3 ((2 + 1) % 3) 2 ≡ true)
    × (primary_reporter 180 1000 Dict.empty 3 ((2 + 2) % 3) 2
        ≡ not (agent_alive 180 1000 Dict.empty ((2 + 1) % 3)))
primary_reporter_ring_example =
    primary_reporter_ring 2 180 1000 1000 Dict.empty Dict.empty (omega arith)

abbrev sightings : List (List ℕ × ℕ)
sightings = (codes "sre-agent-0", 900) ∷ ((codes "sre-agent-1", 990) ∷ [])

refresh_freshest_example :
    ((k : List ℕ)
      → last_seen k Dict.empty
        ≤ last_seen k (refresh_agent_liveness 2000 1000 sightings Dict.empty))
    × All
        (λ (s : List ℕ × ℕ).
          starts_with (codes "sre-agent-") s.0 ≡ true
          → seen_at 2000 1000 s.1
            ≤ last_seen s.0 (refresh_agent_liveness 2000 1000 sightings Dict.empty))
        sightings
refresh_freshest_example = refresh_freshest 2000 1000 sightings Dict.empty

abbrev new_watch : Watch
new_watch = record {
  status = Dict.empty;
  fail_streak = Dict.empty;
  flaps = Dict.empty;
  down_since = Dict.empty;
  local_fail_streak = 0;
  investigating = false;
  multi_region_down = false;
}

abbrev region_1 : RegionLook
region_1 = record {
  index = 1;
  up_msg = codes "RECOVERED: region 1";
  down_msg = codes "NODE DOWN: region 1";
  probe = true;
  is_primary = true;
  owner_reports = false;
}

abbrev none_open : List ℕ → Bool
none_open key = false

abbrev bad_times : List (ℕ × Bool)
bad_times = (130, true) ∷ ((160, false) ∷ [])

watch_region_debounce_example :
    Dict.get
      (bad_looks 3 900 3 600 0 none_open region_1 bad_times
        (look_at 3 900 3 600 0 none_open (good_look region_1) 100 new_watch)).status
      (region_key 1)
    ≡ some (ltb (length bad_times) 3)
watch_region_debounce_example =
    watch_region_debounce 3 900 3 600 0 none_open region_1 100 bad_times new_watch (omega arith)

watch_region_tracked_example :
    let r = watched 1 900 3 600 0 none_open (bad_look region_1 false) 100 new_watch in
    (r.0 ≡ []) × (alerts (watched 1 900 3 600 0 none_open (bad_look region_1 true) 130 r.1).0 ≡ [])
unfolding debounced Dict.get Dict.empty
watch_region_tracked_example =
    watch_region_tracked 1 900 3 600 0 none_open region_1 100 130 true new_watch refl

-- E-mail, chat and phones of a world that counts.
abbrev counting : Sender ℕ
counting text w = (returned (codes "email sent via smtp"), suc w)

abbrev counts : List ℕ → ℕ → ℕ
counts text w = suc w

abbrev headline_only : List ℕ → List (List ℕ) → List ℕ
headline_only headline lines = headline

abbrev new_file : File Incidents.Ledger
new_file = record { content = none; writable = true }

abbrev opened_file : List ℕ → File Incidents.Ledger
opened_file key = (opened 3600 20 counting key (codes "down") 90 new_file 0).file

-- The ledgers of the witness: in the first the incident is open, in the second its flapping alone.
abbrev own_open : File Incidents.Ledger
own_open = opened_file (codes "region-1")

abbrev flap_open : File Incidents.Ledger
flap_open = opened_file (flap_incident (codes "region-1"))

were_open :
    (is_open (codes "region-1") own_open ≡ true)
    × (is_open (flap_incident (codes "region-1")) flap_open ≡ true)
    × (is_open (codes "region-1") flap_open ≡ false)
unfolding is_open opened load save deliver starts_with email_sent email_failed text_eq Dict.get
    Dict.empty Dict.put
were_open = (refl, refl, refl)

abbrev closed_region : File Incidents.Ledger → File Incidents.Ledger
closed_region file =
    (alerted 3600 20 counting no_digest headline_only counts counts (codes "RECOVERED")
      (some (codes "region-1")) true 100 100 file 0).file

alert_closes_example :
    ((is_open (codes "region-1") (closed_region own_open) ≡ false)
      × ((is_open (flap_incident (codes "region-1")) (closed_region own_open)
            && not (is_open (codes "region-1") own_open))
          ≡ false))
    × ((is_open (codes "region-1") (closed_region flap_open) ≡ false)
        × ((is_open (flap_incident (codes "region-1")) (closed_region flap_open)
              && not (is_open (codes "region-1") flap_open))
            ≡ false))
unfolding incident_of opened Dict.get load Dict.empty save
alert_closes_example = (
  alert_closes 3600 20 counting no_digest headline_only counts counts (codes "RECOVERED")
      (some (codes "region-1")) 100 100 own_open 0 refl,
  alert_closes 3600 20 counting no_digest headline_only counts counts (codes "RECOVERED")
      (some (codes "region-1")) 100 100 flap_open 0 refl,
)

-- Requests of a world that counts: the first host does not answer.
abbrev second_answers : List ℕ → ℕ → Outcome ℕ × ℕ
second_answers host zero = (raised (codes "timeout"), 1)
second_answers host (suc w) = (returned w, suc (suc w))

api-Ended_example :
    Ended second_answers
      (codes "sre0" ∷ (codes "sre1" ∷ []))
      0
      (api second_answers no_host (codes "sre0" ∷ (codes "sre1" ∷ [])) 0)
api-Ended_example = api-Ended second_answers no_host (codes "sre0" ∷ (codes "sre1" ∷ [])) 0

-- A model that says nothing, and its call of a shell that is not there.
abbrev mute : List Message → List Schema → ℕ → Outcome Answer × ℕ
mute messages schemas w = (raised (codes "timeout"), w)

abbrev no_arg : List ℕ → Option (List ℕ)
no_arg raw = none

abbrev shell_call : ToolCall
shell_call = record { id = codes "1"; name = codes "shell"; arguments = codes "{}" }

multi_region_looks_once_example :
    multi_region_looks 3 (codes "AWS us-east-1") ((0 ∷ (2 ∷ [])) ∷ ((0 ∷ []) ∷ [])) new_watch
    ≡ sms_effect (multi_region_text 3 (codes "AWS us-east-1") (0 ∷ (2 ∷ []))) ∷ []
multi_region_looks_once_example =
    multi_region_looks_once 3 (codes "AWS us-east-1") 0 2 [] ((0 ∷ []) ∷ []) new_watch refl refl
