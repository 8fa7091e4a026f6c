-- ===== src/Agent/Chat/Tests.antt =====
-- Runs of `handle` and of the journal.
use srechat.Prelude.{
  ℕ, zero, suc, ◌-◌, ◌≡◌, ◌||◌, refl, true, false, take, length, List, [], ◌∷◌, ◌++◌, arith, map,
  if◌then◌else◌, Outcome, returned, raised,
}
use srechat.Text.{codes, show, rstrip, is_space, starts_with, contains, lower, strip}
use srechat.Agent.Tools.{choose_tool}
use srechat.Agent.Chat.{Payload, Posted, unavailable, http_error, handled, ask_llm, tool_output_of}
use srechat.Agent.Chat.Answers.{no_answer, handled-failing}
use srechat.Agent.Chat.Journal.{Call, entry_of_call, journal_calls, journal_calls_lem}

abbrev model_down : Payload (List ℕ × List ℕ) → ℕ → Posted × ℕ
model_down p w = (unavailable (codes "timed out"), w)

abbrev says_ok : List ℕ → List ℕ → ℕ → Outcome (List ℕ) × ℕ
says_ok tool arg w = (returned (codes "all fine"), w)

abbrev noon : ℕ → List ℕ
noon w = codes "12:00"

answered :
    (handled true false true
      (codes "GCP")
      0
      (codes "m")
      []
      model_down
      says_ok
      noon
      (codes "health?")
      ([], 0)).0
    ≡ returned (codes "$ region_health \nall fine\n\n(LLM unavailable: timed out)")
unfolding handled contains
answered = refl

abbrev old_entries : ℕ → List (List ℕ)
old_entries zero = []
old_entries (suc n) = show n ∷ old_entries n

handled-failing_example :
    let (tool, arg) = choose_tool true false (codes "health?") in
    let output = tool_output_of tool arg (codes "all fine") in
    (handled true false true
      (codes "GCP")
      0
      (codes "m")
      []
      model_down
      says_ok
      noon
      (codes "health?")
      ([], 0)).0
    ≡ returned (
        if no_answer true (unavailable (codes "timed out"))
          || starts_with (codes "(") (codes "(LLM unavailable: timed out)")
        then output ++ (codes "\n\n" ++ rstrip is_space (codes "(LLM unavailable: timed out)"))
        else codes "(LLM unavailable: timed out)")
unfolding choose_tool lower strip contains ask_llm
handled-failing_example =
    handled-failing true false true (codes "GCP") 0 (codes "m") [] model_down says_ok noon
      (codes "health?") (codes "all fine") (codes "(LLM unavailable: timed out)") [] 0 0 refl refl
      refl refl

-- An error of the gateway whose body is no UTF-8: what the decoding raises comes out of `handle`.
abbrev bad_body : Payload (List ℕ × List ℕ) → ℕ → Posted × ℕ
bad_body p w = (http_error 502 (raised (codes "invalid start byte")), w)

not_answered :
    (handled true false true
      (codes "GCP")
      0
      (codes "m")
      []
      bad_body
      says_ok
      noon
      (codes "health?")
      ([], 0)).0
    ≡ raised (codes "invalid start byte")
unfolding handled contains
not_answered = refl

-- A full journal, and two calls that come to it.
abbrev one_call : Call
one_call = record { stamp = noon 0; tool = codes "health"; arg = []; output = codes "all fine" }

abbrev full : List (List ℕ)
full = old_entries 200

journal_calls_lem_example :
    let all_entries = full ++ map entry_of_call (one_call ∷ one_call ∷ []) in
    take (length all_entries - 200) all_entries ++ journal_calls (one_call ∷ one_call ∷ []) full
    ≡ all_entries
journal_calls_lem_example = journal_calls_lem (one_call ∷ one_call ∷ []) full (omega arith)
