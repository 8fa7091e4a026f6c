-- ===== src/Agent/Host.antt =====
-- agent/sre_agent.py: the tools that run commands, `_sentry_issue_is_recent` and `_disk_percent_used`. What
-- a tool does is to refuse, or to run a command with a timeout; `_run` is a parameter of those that read
-- its output. Patterns are those of ASCII.
pub mod Arguments
pub mod Readings
mod Tests
use srechat.Prelude.{
  ℕ, zero, suc, ◌+◌, ◌-◌, ◌*◌, ◌/◌, ◌%◌, Bool, true, false, not, ◌&&◌, ◌||◌, Option, none, some,
  List, [], ◌∷◌, ◌++◌, ◌==◌, leb, ltb, if◌then◌else◌, keep, take, drop, length, is_empty, any,
  Outcome, returned, raised,
}
use srechat.Text.{codes, join, text_eq, strip, lower, contains, splitlines}
use srechat.Agent.Tools.{is_in}

pub data Host : Type 0 where
  refuses : List ℕ → Host
  runs : List (List ℕ) → ℕ → Host

abbrev pub is_small : ℕ → Bool
is_small c = leb b'a' c && leb c b'z'

abbrev pub is_figure : ℕ → Bool
is_figure c = leb b'0' c && leb c b'9'

-- `[A-Za-z0-9-]` and `[0-9hmd]`.
abbrev pub in_revision : ℕ → Bool
in_revision c = is_small c || (leb b'A' c && leb c b'Z') || is_figure c || c == b'-'

abbrev pub in_freshness : ℕ → Bool
in_freshness c = is_figure c || c == b'h' || c == b'm' || c == b'd'

abbrev pub or_given : List ℕ → List ℕ → List ℕ
or_given text other = if is_empty text then other else text

abbrev pub services : List (List ℕ)
services = codes "app" ∷ codes "redis" ∷ codes "caddy" ∷ []

-- The service that the argument names.
unfoldable pub service_of : List ℕ → List ℕ
unfolding strip lower
service_of arg =
    or_given (take 12 (keep is_small (lower (strip (or_given arg (codes "app")))))) (codes "app")

abbrev pub restart_command : List ℕ → List ℕ → List (List ℕ)
restart_command dir service =
    codes "sudo"
    ∷ codes "docker"
    ∷ codes "compose"
    ∷ codes "--env-file"
    ∷ (dir ++ codes "/deploy/.env")
    ∷ codes "-f"
    ∷ (dir ++ codes "/deploy/docker-compose.prod.yml")
    ∷ codes "restart"
    ∷ service
    ∷ []

-- `healthy` is the answer of `_local_app_healthy()`.
unfoldable pub tool_restart_region0 : List ℕ → Bool → List ℕ → Host
unfolding service_of is_in text_eq
tool_restart_region0 dir healthy arg =
    let which = service_of arg in
    if not (is_in which services)
    then refuses
        (codes "refused: '" ++ (which ++ codes "' is not a restartable service (app|redis|caddy)"))
    else if text_eq which (codes "app") && healthy
    then refuses (codes "refused: app is healthy; no restart performed")
    else runs (restart_command dir which) 90

unfoldable pub revision_of : List ℕ → List ℕ
unfolding strip
revision_of arg = take 80 (keep in_revision (strip arg))

module _ (project region service : List ℕ) where
  abbrev pub rollback_command : List ℕ → List (List ℕ)
  rollback_command revision =
      codes "gcloud"
      ∷ codes "run"
      ∷ codes "services"
      ∷ codes "update-traffic"
      ∷ service
      ∷ (codes "--project=" ++ project)
      ∷ (codes "--region=" ++ region)
      ∷ (codes "--to-revisions=" ++ (revision ++ codes "=100"))
      ∷ []

  -- `setting` is the environment's SRE_ALLOW_TR_WRITES.
  unfoldable pub tool_tr_rollback : List ℕ → List ℕ → Host
  unfolding revision_of strip lower is_in
  tool_tr_rollback setting arg =
      let revision = revision_of arg in
      if not (is_in (lower (strip setting)) (codes "1" ∷ codes "true" ∷ codes "yes" ∷ []))
      then refuses (
          codes
            "refused: TrustedRouter writes are disabled. Set SRE_ALLOW_TR_WRITES=true on the region-0 agent to allow rollback.")
      else if is_empty revision
      then refuses (codes "refused: name the revision to roll back to (see `tr revisions`).")
      else runs (rollback_command revision) 120

  unfoldable pub tool_tr_errors : List ℕ → Host
  unfolding strip
  tool_tr_errors arg =
      let freshness =
        or_given (keep in_freshness (or_given (strip arg) (codes "1h"))) (codes "1h") in
      runs
        (codes "gcloud"
          ∷ codes "logging"
          ∷ codes "read"
          ∷ (codes "severity>=ERROR AND resource.labels.service_name=\"" ++ (service ++ codes "\""))
          ∷ (codes "--project=" ++ project)
          ∷ (codes "--freshness=" ++ freshness)
          ∷ codes "--limit=15"
          ∷ codes
              "--format=value(timestamp,jsonPayload.MESSAGE,textPayload,protoPayload.status.message)"
          ∷ [])
        60

-- `_sentry_issue_is_recent`: none is a `lastSeen` that is missing or is no time.
unfoldable pub sentry_issue_is_recent : Option ℕ → ℕ → Bool
sentry_issue_is_recent none now = true
sentry_issue_is_recent (some last_seen) now = leb now (last_seen + 86400)

-- `_disk_percent_used`, from the blocks and those that are available: `round` goes to the nearest number,
-- and from the middle to the even one; here without the rounding of floats.
unfoldable pub disk_percent_used : ℕ → ℕ → ℕ
disk_percent_used total available =
    let scaled = 100 * (total - available) in
    let whole = scaled / total in
    let rest = 2 * (scaled % total) in
    if total == 0
    then 0
    else if ltb total rest || (rest == total && whole % 2 == 1)
    then suc whole
    else whole

-- What a command of `tool_shell` does: its exit code as text, output and errors, or the exception.
pub record Exit : Type 0 where
  pub code : List ℕ
  pub output : List ℕ
  pub errors : List ℕ

pub data Shell : Type 0 where
  exited : Exit → Shell
  timed_out : Shell
  broken : List ℕ → Shell

unfoldable pub shell_reply : List ℕ → Shell → List ℕ
unfolding strip
shell_reply command timed_out = codes "timed out after 60s: " ++ command
shell_reply command (broken exc) = codes "failed to run: " ++ exc
shell_reply command (exited e) =
    let body = e.output ++ (if is_empty e.errors then [] else codes "\n[stderr]\n" ++ e.errors) in
    take 4000
      (codes "[exit " ++ (e.code ++ (codes "]\n" ++ or_given (strip body) (codes "(no output)"))))

-- The reply of `tool_shell`, and the line of the audit that is written before the command runs. A write
-- that fails is passed over.
unfoldable pub tool_shell :
    {W : Type 0} → (List ℕ → W → Shell × W) → List ℕ → List ℕ → W → List ℕ × (List (List ℕ) × W)
unfolding shell_reply strip
tool_shell bash stamp arg w =
    let command = strip arg in
    let (done, w') = bash command w in
    if is_empty command
    then (codes "usage: shell <command>", ([], w))
    else (shell_reply command done, ((stamp ++ (codes " " ++ command)) ∷ [], w'))

-- `tool_system_errors`: `noise` finds what `_SSH_NOISE` finds.
abbrev pub is_oom : List ℕ → Bool
is_oom line = contains (codes "Out of memory") line || contains (codes "oom-kill") line

unfoldable pub system_errors : (List ℕ → Bool) → List ℕ → List ℕ → List ℕ
unfolding strip join splitlines contains
system_errors noise errors kernel =
    let oom_lines = keep is_oom (splitlines kernel) in
    let oom = drop (length oom_lines - 5) oom_lines in
    let out = join (codes "\n") (keep (λ line. not (noise line)) (splitlines errors)) in
    let found =
      (if not (is_empty (strip out)) && not (contains (codes "-- No entries --") out)
        then take 1500 (strip out) ∷ []
        else [])
      ++ (if is_empty oom
          then []
          else (codes "KERNEL OOM:\n" ++ take 600 (join (codes "\n") oom)) ∷ []) in
    or_given (join (codes "\n\n") found) (codes "(no output)")

unfoldable pub tool_system_errors :
    {W : Type 0} → (List ℕ → Bool) → (List (List ℕ) → W → List ℕ × W) → List ℕ → W → List ℕ × W
unfolding system_errors
tool_system_errors noise run window w =
    let since = or_given window (codes "30m") in
    let (errors, w') =
      run
        (codes "sudo"
          ∷ codes "journalctl"
          ∷ codes "-p"
          ∷ codes "err"
          ∷ codes "--since"
          ∷ (codes "-" ++ since)
          ∷ codes "--no-pager"
          ∷ codes "-n"
          ∷ codes "40"
          ∷ [])
        w in
    let (kernel, w'') =
      run
        (codes "sudo"
          ∷ codes "journalctl"
          ∷ codes "-k"
          ∷ codes "--since"
          ∷ (codes "-" ++ since)
          ∷ codes "--no-pager"
          ∷ [])
        w' in
    (system_errors noise errors kernel, w'')
