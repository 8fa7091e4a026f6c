-- ===== src/Agent/Watch/Logs.antt =====
-- agent/sre_agent.py: the looks of `watch_once` at the app's log, and `_duration_ms`.
use srechat.Prelude.{
  ℕ, ◌-◌, ◌/◌, max, Bool, true, false, not, ◌&&◌, ◌||◌, List, [], ◌∷◌, ◌++◌, leb, if◌then◌else◌,
  length, take, drop, keep, is_empty, any, Outcome, returned, raised,
}
use srechat.Text.{
  codes, show, join, lower, contains, starts_with, splitlines, is_digit, digits_from,
}
use srechat.Agent.Watch.{Watch, Effect, transition}

abbrev starts_with_digit : List ℕ → Bool
starts_with_digit [] = false
starts_with_digit (c ∷ text) = is_digit c

-- `_duration_ms`: the number behind the first `duration_ms=` that has one.
unfoldable pub duration_ms : List ℕ → ℕ
unfolding digits_from starts_with
duration_ms [] = 0
duration_ms (c ∷ line) =
    let later = duration_ms line in
    let here = drop 12 (c ∷ line) in
    if starts_with (codes "duration_ms=") (c ∷ line) && starts_with_digit here
    then digits_from 0 here
    else later

unfoldable pub slow_lines : List (List ℕ) → List (List ℕ)
unfolding duration_ms contains
slow_lines lines =
    keep (λ line. contains (codes "ingest_replicated") line && leb 10000 (duration_ms line)) lines

abbrev longest : List (List ℕ) → ℕ
longest [] = 0
longest (line ∷ lines) = max (duration_ms line) (longest lines)

abbrev in_region : ℕ → List ℕ → List ℕ
in_region own cloud = codes "region " ++ (show own ++ (codes " (" ++ (cloud ++ codes ")")))

-- `lines[-n:]`
abbrev last_of : ℕ → List (List ℕ) → List (List ℕ)
last_of n lines = drop (length lines - n) lines

abbrev is_replication : List ℕ → Bool
is_replication line =
    contains (codes "replication gap") line || contains (codes "refusing to continue") line

unfoldable pub replication_lines : List (List ℕ) → List (List ℕ)
unfolding contains
replication_lines lines = keep is_replication lines

-- The lines of errors that are no lines of replication.
unfoldable pub error_lines : List (List ℕ) → List (List ℕ)
unfolding contains lower
error_lines lines =
    keep
      (λ line.
        any (λ w. contains w (lower line))
          (codes "error" ∷ codes "crash" ∷ codes "fatal" ∷ codes "exception" ∷ [])
        && not (is_replication line))
      lines

module _ (flap_window flaps_to_report : ℕ) (is_open : List ℕ → Bool) (own : ℕ)
    (cloud : List ℕ) where
  abbrev stalling : List (List ℕ) → List ℕ
  stalling slow =
      codes "REPLICATION INGEST STALLING in "
      ++ (in_region own cloud
          ++ (codes ": a batch took "
              ++ (show (longest slow / 1000)
                  ++ codes
                      "s. Ingest runs inside the Store, so requests queue behind it and this region will start answering 502 while still looking alive.")))

  abbrev ingest_look : List ℕ → ℕ → Watch → List Effect × Watch
  ingest_look logs now s =
      let slow = slow_lines (splitlines logs) in
      transition flap_window flaps_to_report is_open (codes "ingest-slow") (is_empty slow)
        (codes "RECOVERED: replication ingest in region " ++ (show own ++ codes " is quick again."))
        (stalling slow) true now s

  abbrev replication_look : List (List ℕ) → ℕ → Watch → List Effect × Watch
  replication_look lines now s =
      let bad = replication_lines lines in
      transition flap_window flaps_to_report is_open (codes "replication") (is_empty bad)
        (codes "RECOVERED: region " ++ (show own ++ codes " is replicating from its peers again."))
        (codes "REPLICATION BROKEN in "
          ++ (in_region own cloud
              ++ (codes
                    ": this region has stopped applying a peer's writes and will silently diverge until an operator resyncs (runbook: multi-master.md).\n"
                  ++ take 400 (join (codes "\n") (last_of 2 bad)))))
        true now s

  abbrev error_look : List (List ℕ) → ℕ → Watch → List Effect × Watch
  error_look lines now s =
      let bad = error_lines lines in
      transition flap_window flaps_to_report is_open (codes "local-logs") (is_empty bad)
        (codes "RECOVERED: no more errors in region " ++ (show own ++ codes "'s app log."))
        (codes "ERRORS in "
          ++ (in_region own cloud
              ++ (codes " app log:\n" ++ take 1200 (join (codes "\n") (last_of 5 bad)))))
        true now s

  abbrev after_look : List Effect × Watch → (Watch → List Effect × Watch) → List Effect × Watch
  after_look (said, s) look = let (more, s') = look s in (said ++ more, s')

  abbrev ingest_of : Outcome (List ℕ) → ℕ → Watch → List Effect × Watch
  ingest_of (raised exc) now s = ([], s)
  ingest_of (returned logs) now s = ingest_look logs now s

  abbrev lines_look : Outcome (List ℕ) → ℕ → Watch → List Effect × Watch
  lines_look (raised exc) now s = ([], s)
  lines_look (returned logs) now s =
      let lines = splitlines logs in
      after_look (replication_look lines now s) (error_look lines now)

  -- The two readings of the log, each guarded by itself.
  unfoldable pub watch_logs : Outcome (List ℕ) → Outcome (List ℕ) → ℕ → Watch → List Effect × Watch
  unfolding transition slow_lines duration_ms replication_lines error_lines join splitlines
  watch_logs first second now s = after_look (ingest_of first now s) (lines_look second now)
