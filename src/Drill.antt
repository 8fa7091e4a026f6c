-- ===== src/Drill.antt =====
-- tools/chaos/drill.py: a drill breaks a region, watches the agent and scores it. `W` is the state of
-- the host: `run` a command on it, read the `activity` of the agent, `sleep`, read the clock `time`
-- in whole seconds and `write` the report. The two loops have fuel, a number of rounds.
mod Tests
pub mod Faults
pub mod Score
pub mod Watching
use srechat.Prelude.{
  ℕ, zero, suc, ◌+◌, ◌-◌, Bool, true, false, not, ◌&&◌, ◌||◌, Option, none, some, List, [], ◌∷◌,
  ◌++◌, leb, ltb, ◌==◌, if◌then◌else◌, length, keep, is_empty, take, drop,
}
use srechat.Text.{codes, show, lower, strip, contains, starts_with, splitlines}
use srechat.Drill.Faults.{Fault}

pub record Result : Type 0 where
  pub injected : Bool
  pub detected : Bool
  pub diagnosed : Bool
  pub repaired_by_agent : Bool
  pub restored_by_drill : Bool
  pub notified : Bool
  pub notify_detail : List ℕ
  pub agent_said : List ℕ
  pub seconds_to_detect : Option ℕ
  pub notes : List (List ℕ)

abbrev pub new_result : Result
new_result = record {
  injected = false;
  detected = false;
  diagnosed = false;
  repaired_by_agent = false;
  restored_by_drill = false;
  notified = false;
  notify_detail = [];
  agent_said = [];
  seconds_to_detect = none;
  notes = [];
}

unfoldable pub passed : Result → Bool
passed r = r.detected && r.diagnosed && (r.repaired_by_agent || r.restored_by_drill)

abbrev pub conclusion_marker : List ℕ
conclusion_marker = codes "self-repair: cause="

-- `line.split(marker, 1)[1]`, if the marker stands in the line.
unfoldable pub after_marker : List ℕ → List ℕ → Option (List ℕ)
after_marker marker [] = none
after_marker marker (c ∷ s) =
    let later = after_marker marker s in
    if starts_with marker (c ∷ s) then some (drop (length marker) (c ∷ s)) else later

abbrev pub or_else : Option (List ℕ) → Option (List ℕ) → Option (List ℕ)
or_else none o = o
or_else (some x) o = some x

-- What follows the marker in the last line that has it.
unfoldable pub last_after : List ℕ → List (List ℕ) → Option (List ℕ)
unfolding after_marker
last_after marker [] = none
last_after marker (line ∷ lines) = or_else (last_after marker lines) (after_marker marker line)

abbrev pub stripped : Option (List ℕ) → List ℕ
stripped none = []
stripped (some s) = strip s

unfoldable pub stated_cause : List ℕ → List ℕ
unfolding last_after
stated_cause activity = stripped (last_after conclusion_marker (splitlines activity))

unfoldable pub scored_diagnosis : List ℕ → Fault → Bool
unfolding stated_cause
scored_diagnosis activity fault =
    let cause = lower (stated_cause activity) in
    not (is_empty cause || contains (codes "unknown") cause)
    && leb 2 (length (keep (λ word. contains word cause) fault.keywords))

-- The last result of a page.
unfoldable pub notify_detail_of : List ℕ → List ℕ
unfolding last_after
notify_detail_of activity = stripped (last_after (codes "self-repair page:") (splitlines activity))

module _ {W : Type 0} (run : List ℕ → W → (ℕ × List ℕ) × W) (activity : ℕ → W → List ℕ × W)
    (time : W → ℕ) (sleep : ℕ → W → W) where
  -- What a poll of the journal detects.
  abbrev pub detect : ℕ → List ℕ → W → Result → Result
  detect started text w r =
      if not r.detected
        && (contains (codes "investigating:") text || contains (codes "escalat") (lower text))
      then record r { detected = true; seconds_to_detect = some (time w - started) }
      else r

  -- One round: the result, the exit code of the check for the fault, and the host.
  abbrev pub poll : Fault → ℕ → Result → W → Result × (ℕ × W)
  poll fault started r w =
      let (text, w') = activity started (sleep 20 w) in
      let ((code, _), w'') = run fault.verify_broken w' in (detect started text w' r, (code, w''))

  -- The loop up to the deadline.
  unfoldable pub watch : ℕ → Fault → ℕ → ℕ → Result → W → Result × W
  watch zero fault started deadline r w = (r, w)
  watch (suc fuel) fault started deadline r w =
      let (r', (code, w')) = poll fault started r w in
      let rest = watch fuel fault started deadline r' w' in
      if ltb (time w) deadline
      then (if code == 0 then rest else (record r' { repaired_by_agent = true }, w'))
      else (r, w)

  -- The loop that waits for the conclusion.
  unfoldable pub wait_for_conclusion : ℕ → ℕ → ℕ → W → W
  wait_for_conclusion zero started deadline w = w
  wait_for_conclusion (suc fuel) started deadline w =
      let (text, w') = activity started w in
      let rest = wait_for_conclusion fuel started deadline (sleep 10 w') in
      if ltb (time w) deadline then (if contains conclusion_marker text then w' else rest) else w

  abbrev pub score : Fault → List ℕ → Result → Result
  score fault text r = record r {
    agent_said = drop (length text - 4000) text;
    detected = r.detected || contains (codes "investigating:") text;
    diagnosed = scored_diagnosis text fault;
    notify_detail = notify_detail_of text;
    notified = contains (codes " sent:") (notify_detail_of text);
  }

  abbrev pub restored_note : ℕ → List ℕ → List ℕ
  restored_note code out =
      codes "drill restored the fault (exit " ++ (show code ++ (codes ") " ++ take 200 out))

  -- Rule 3: what the agent did not repair, the drill restores.
  abbrev pub restore_unless_repaired : Fault → Result → W → Result × W
  restore_unless_repaired fault r w =
      let ((code, out), w') = run fault.restore w in
      if r.repaired_by_agent then (r, w) else (
        record r { restored_by_drill = true; notes = r.notes ++ restored_note code out ∷ [] },
        w',
      )

  -- The drill on a fault that took.
  abbrev pub drill_taken : Fault → ℕ → ℕ → ℕ → Result → W → Result × W
  drill_taken fault started deadline_seconds grace_seconds r w =
      let (r', w₁) = watch deadline_seconds fault started (started + deadline_seconds) r w in
      let w₂ = wait_for_conclusion grace_seconds started (time w₁ + grace_seconds) w₁ in
      let (text, w₃) = activity started w₂ in restore_unless_repaired fault (score fault text r') w₃

  -- `main` on the fault that was chosen, up to its report.
  unfoldable pub drill : Fault → ℕ → ℕ → W → Result × W
  unfolding watch wait_for_conclusion scored_diagnosis notify_detail_of
  drill fault deadline_seconds grace_seconds w =
      let started = time w in
      let (_, w₁) = run fault.inject w in
      let ((code, _), w₂) = run fault.verify_broken w₁ in
      let not_taken : Result × W = (
        record new_result { notes = codes "fault did not take; nothing was tested" ∷ [] },
        (run fault.restore w₂).1,
      ) in
      if code == 0
      then drill_taken fault started deadline_seconds grace_seconds
          (record new_result { injected = true }) w₂
      else not_taken

  -- `report`: the exit code, and the host after the report is written.
  unfoldable pub report : (Result → W → W) → Result → W → ℕ × W
  unfolding passed
  report write r w = (if passed r then 0 else 1, write r w)
