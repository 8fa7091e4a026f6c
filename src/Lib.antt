-- ===== src/Lib.antt =====
-- The SRE agents of SREChat: one process in each of three clouds that watches the chat servers,
-- investigates what breaks with a language model and a table of tools, repairs what it may, and
-- reaches a human. This library models the Python side of the repository.
--
-- How the parts interact. The watchdog (`watch_once` of agent/sre_agent.py) looks at the regions,
-- debounces what it sees and turns changes into alerts; an alert goes to chat, to the phones and, by
-- the ledger of agent/incidents.py, to e-mail. An investigation (agent/investigate.py) lets the model
-- call tools and ends in a conclusion of five fields. agent/escalate.py holds the leash on each way
-- to reach a human and the carriers behind it; its `email_human` is the sender that the ledger calls.
-- Inbound signals and the agent's own sweeps go through a filter for duplicates and are
-- investigated, and what they find is reported by the ledger. The drills break a region on purpose.
--
-- Files and code:
--   Prelude, Text, Dict, Disk   what the components share: times in a window, Python's `str` as its
--                               code points, `dict`, and a state file that is loaded and saved whole
--                               (`_load`, `_save`, `_load_state`, `_save_state`)
--   Incidents                   agent/incidents.py: `Ledger` is the JSON file; `opened`, `outcome`,
--                               `report`, `is_open`, `prune`, `deliver` (`_deliver`), `ceiling_hit`
--   Escalate/Leash              agent/escalate.py, `LIMITS` to `_escalate`: `State` is the state file
--   Escalate/Brand, Carriers, Channels, Email   the texts, `_try_carriers` with its requests, the
--                               channels of the agent, and `email_human` with its providers
--   Investigate                 agent/investigate.py: `investigate` with its rounds and tool calls
--   Investigate/Conclusion      `parse_conclusion`, `ensure_fields`, `is_resolved`
--   Agent/Tools                 agent/sre_agent.py: the tables of tools, the grants, `choose_tool`
--   Agent/Signals, Reports      duplicates, sweeps, `triage_signal`, what counts as a repair
--   Agent/Acks                  incidents that wait for a reply, `escalate_unacknowledged`
--   Agent/Liveness              heartbeats, sightings, `_primary_reporter`
--   Agent/Watch                 `_debounced`, `_transition`, the looks at the regions
--   Agent/Alerts                `alert`, `email_alert`, `close_own_incident_if_recovered`
--   Agent/Api                   `api`, `api_hosts`, `tr_bases`, `_tr_post`
--   Agent/Loop                  `main`: the polling of messages, the watchdog and the sweep of each round
--   Agent/Chat                  `handle`, `ask_llm`, `chat_with_tools`, `_journal`
--   Agent/Repair                the work on the own region's trouble, `opening_email`, `incident_report`
--   Agent/Phones                `owner_devices`, `push_alert`
--   Agent/Host                  the tools that run commands: restart, rollback, shell, host errors, disk;
--                               `Host/Readings` has replication, Sentry issues and the gateway's status
--   Apns                        agent/apns.py: `_der_to_raw`, hosts, `provider_token`, `push`
--   Drill                       tools/chaos/drill.py: the faults, the scoring, the loops of `main`
--   ChaosDrill                  agent/chaos_drill.py: both drills and `wait_until`
--   Chaos                       tools/chaos/chaos.py: the phases of `main` and `wait_for`
--   Relay                       tools/ws_relay.py: a frame (`Relay/Frame`), `parse_frames` and `pump`
--                               (`Relay/Stream`), `read_http_head` and `handle` (`Relay/Http`)
-- The child modules named for what they prove hold the lemmas; the modules called Tests hold runs at
-- concrete inputs.
--
-- Conventions. A function that changes state takes the state and gives it back; what the world does
-- (HTTP, e-mail, the model, commands, digests) is a parameter, with a state `W` of its own, and where
-- it may raise it returns an `Outcome`. Log lines are left out. Times are whole seconds, in Chaos
-- tenths, and lie after the epoch; where the code subtracts two times to compare the difference with a
-- bound, the model compares a sum. Letter case and character classes of patterns are those of ASCII;
-- white space and line breaks are those of Python.
--
-- Bounds and fuel. The rounds of `investigate` are structural on `max_steps`. The loops of the drills
-- run on fuel, one round for each second up to their deadline, which is enough since each round
-- sleeps for more than a second, and the waiting of the chaos test has one for each
-- tenth of a second. `parse_frames` has a round for each byte of its buffer, and a frame takes two
-- bytes at least. `show` has more fuel than a number has digits.
--
-- Not modelled: the Elixir server (lib/), the web client, the deployment, the transports of HTTP and
-- SMTP, what the commands of the tools do on the host, the starting of processes in
-- tools/chaos/chaos.py, and tools/chaos/proxy.py, which copies bytes between sockets.

pub mod Prelude
pub mod Text
pub mod Dict
pub mod Disk
pub mod Incidents
pub mod Escalate
pub mod Investigate
pub mod Agent
pub mod Apns
pub mod Drill
pub mod ChaosDrill
pub mod Chaos
pub mod Relay
