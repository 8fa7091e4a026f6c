-- ===== src/Investigate/Tests.antt =====
-- Runs of agent/investigate.py at concrete inputs.
use srechat.Prelude.{
  ℕ, suc, ◌+◌, ◌≤◌, ◌≡◌, refl, false, Option, none, some, List, [], ◌∷◌, ◌⊎◌, ◌++◌, arith, All,
  is_empty, ap, sym, ◌∙◌, Bool-cases, inl, inr, Outcome, returned,
}
use srechat.Text.{codes, strip, is_line_break, text_eq, join}
use srechat.Investigate.{Answer, Message, Schema, Tool, ToolTable, find_tool, investigate}
use srechat.Investigate.Evidence.{IsReal, investigate-IsReal}
use srechat.Investigate.Budget.{investigate_budget}
use srechat.Investigate.Conclusion.{parse_conclusion, ensure_fields, is_resolved}
use srechat.Investigate.Conclusion.Cause.{ensure_fields_cause}
use srechat.Investigate.Conclusion.Blank.{blank_cause, ensure_fields_blank}

-- A model of a world that counts its questions: it asks for one tool again and again.
abbrev calls_logs : Answer
calls_logs = record {
  content = [];
  tool_calls = record { id = codes "1"; name = codes "logs"; arguments = codes "{}" } ∷ [];
}

abbrev always_calls : List Message → List Schema → ℕ → Outcome Answer × ℕ
always_calls messages schemas w = (returned calls_logs, suc w)

abbrev logs : Tool ℕ
logs = record { run = λ arg w. (returned (codes "no errors"), w); description = codes "logs" }

abbrev tools : ToolTable ℕ
tools = (codes "logs", logs) ∷ []

abbrev no_arg : List ℕ → Option (List ℕ)
no_arg raw = some []

investigate-IsReal_example :
    All
      (IsReal tools)
      (investigate
        (λ w. w)
        no_arg
        always_calls
        (codes "prompt")
        (codes "region 0 is down")
        tools
        3
        0).0.steps
investigate-IsReal_example =
    investigate-IsReal tools (λ w. w) no_arg always_calls (codes "prompt")
      (codes "region 0 is down") 3 0

asked_once_more :
    (messages : List Message) (schemas : List Schema) (w : ℕ)
    → (always_calls messages schemas w).1 ≤ w + 1
asked_once_more messages schemas w = omega arith

logs_ask_nothing :
    (name arg : List ℕ) (t : Tool ℕ) (w : ℕ) → find_tool name tools ≡ some t → (t.run arg w).1 ≡ w
unfolding find_tool
logs_ask_nothing name arg t w h =
    ap run_found (sym h)
    ∙ elim (Bool-cases (text_eq (codes "logs") name)) [ inl e ↦ rw e refl | inr e ↦ rw e refl ]
  where
    run_found : Option (Tool ℕ) → ℕ
    run_found none = w
    run_found (some u) = (u.run arg w).1

investigate_budget_example :
    (investigate
      (λ w. w)
      no_arg
      always_calls
      (codes "prompt")
      (codes "region 0 is down")
      tools
      3
      0).1
    ≤ 0 + 3 + 1
investigate_budget_example =
    investigate_budget tools (λ w. w) no_arg always_calls (λ w. w) asked_once_more logs_ask_nothing
      (codes "prompt") (codes "region 0 is down") 3 0

-- An answer in prose.
abbrev prose : List ℕ
prose = codes "All regions look healthy."

ensure_fields_cause_example :
    ((is_empty (parse_conclusion (strip prose)).cause ≡ false)
      × (ensure_fields prose [] (codes "concluded normally") ≡ strip prose))
    ⊎ (((parse_conclusion (ensure_fields prose [] (codes "concluded normally"))).cause
          ≡ codes "UNKNOWN")
        × (is_resolved (ensure_fields prose [] (codes "concluded normally")) ≡ false))
unfolding strip is_line_break join
ensure_fields_cause_example =
    ensure_fields_cause prose [] (codes "concluded normally") refl refl refl

ensure_fields_blank_example :
    (parse_conclusion (
      ensure_fields
        (codes "The app container had stopped." ++ blank_cause (codes "restarted"))
        []
        (codes "concluded normally"))).cause
    ≡ []
unfolding strip is_line_break join
ensure_fields_blank_example =
    ensure_fields_blank (codes "The app container had stopped.") (codes "restarted") []
      (codes "concluded normally") refl refl refl refl refl (omega arith)
