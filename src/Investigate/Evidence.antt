-- ===== src/Investigate/Evidence.antt =====
-- agent/investigate.py: the steps of a result are what the tools answered.
use srechat.Prelude.{
  ℕ, zero, suc, ◌≡◌, refl, ◌⊎◌, inl, inr, Option, none, some, List, [], ◌∷◌, ◌++◌, All, All-append,
  Option-cases, Bool-cases, Outcome, returned, raised, take, is_empty,
}
use srechat.Text.{codes, strip}
use srechat.Investigate.{
  Step, Investigation, Answer, ToolCall, Message, Schema, Tool, ToolTable, Progress, find_tool,
  output_of, max_tool_chars, step_of, run_calls, round_end, rounds, investigate,
}

module _ {W : Type 0} (tools : ToolTable W) where
  -- The table has no tool of the step's name and the output says so, or the output is, cut to
  -- `max_tool_chars`, what the tool of that name answered to the step's argument.
  abbrev pub IsReal : Step → Type 0
  IsReal s =
      ((find_tool s.tool tools ≡ none)
        × (s.output ≡ take max_tool_chars (codes "no such tool: " ++ s.tool)))
      ⊎ ((t : Tool W) × (w : W) × (find_tool s.tool tools ≡ some t)
          × (s.output ≡ take max_tool_chars (output_of (t.run s.arg w).0)))

  module _ (time : W → ℕ) (json_arg : List ℕ → Option (List ℕ))
      (chat : List Message → List Schema → W → Outcome Answer × W) where
    step_of-IsReal : (call : ToolCall) (w : W) → IsReal (step_of time json_arg chat tools call w).0
    step_of-IsReal call w = elim (Option-cases (find_tool (strip call.name) tools)) [
      | inl missing ↦ inl (missing, rw missing refl)
      | inr (t, found) ↦ inr (t, w, found, rw found refl)
    ]

    run_calls-IsReal :
        (calls : List ToolCall) (p : Progress W)
        → All IsReal p.steps
        → All IsReal (run_calls time json_arg chat tools calls p).steps
    unfolding run_calls
    run_calls-IsReal [] p h = h
    run_calls-IsReal (call ∷ calls) p h =
        run_calls-IsReal calls _ (All-append IsReal p.steps _ h (step_of-IsReal call p.world, tt))

    round_end-IsReal :
        (go_on : Answer → W → Investigation × W) (trigger : List ℕ) (steps : List Step)
        (out : Outcome Answer) (w : W)
        → All IsReal steps
        → ((a : Answer) (v : W) → All IsReal (go_on a v).0.steps)
        → All IsReal (round_end time json_arg chat go_on trigger steps out w).0.steps
    round_end-IsReal go_on trigger steps (raised exc) w h k = h
    round_end-IsReal go_on trigger steps (returned a) w h k =
        elim (Bool-cases (is_empty a.tool_calls)) [
          | inl done ↦ rw done h
          | inr more ↦ rw more (k a w)
        ]

    rounds-IsReal :
        (left max_steps : ℕ) (trigger : List ℕ) (p : Progress W)
        → All IsReal p.steps
        → All IsReal (rounds time json_arg chat left max_steps trigger tools p).0.steps
    unfolding rounds
    rounds-IsReal zero max_steps trigger p h = h
    rounds-IsReal (suc left) max_steps trigger p h =
        round_end-IsReal _ trigger p.steps _ _ h
          (λ a v. rounds-IsReal left max_steps trigger _ (run_calls-IsReal a.tool_calls _ h))

    -- Every step of an investigation is evidence: its output is what the named tool of the table
    -- answered, cut to `max_tool_chars`, or says that there is no such tool.
    pub investigate-IsReal :
        (prompt trigger : List ℕ) (max_steps : ℕ) (w : W)
        → All IsReal (investigate time json_arg chat prompt trigger tools max_steps w).0.steps
    unfolding investigate
    investigate-IsReal prompt trigger max_steps w = rounds-IsReal max_steps max_steps trigger _ tt
