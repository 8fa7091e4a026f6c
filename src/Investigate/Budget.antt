-- ===== src/Investigate/Budget.antt =====
-- agent/investigate.py: the step budget.
use srechat.Prelude.{
  ℕ, zero, suc, ◌+◌, ◌≤◌, ◌≡◌, refl, Option, some, List, [], ◌∷◌, ◌++◌, arith, Option-cases,
  Bool-cases, inl, inr, Outcome, returned, raised, is_empty,
}
use srechat.Text.{codes, strip}
use srechat.Investigate.{
  Step, Investigation, Answer, ToolCall, Message, Schema, Tool, ToolTable, Progress, find_tool,
  step_of, run_calls, assistant, system, user, build_tool_schemas, round_end, rounds, investigate,
}

module _ {W : Type 0} (tools : ToolTable W) (time : W → ℕ) (json_arg : List ℕ → Option (List ℕ))
    (chat : List Message → List Schema → W → Outcome Answer × W) (asked : W → ℕ)
    (one_more : (messages : List Message) (schemas : List Schema) (w : W)
      → asked (chat messages schemas w).1 ≤ asked w + 1)
    (no_more : (name arg : List ℕ) (t : Tool W) (w : W)
      → find_tool name tools ≡ some t
      → asked (t.run arg w).1 ≡ asked w) where
  asked-step_of :
      (call : ToolCall) (w : W) → asked (step_of time json_arg chat tools call w).1 ≡ asked w
  asked-step_of call w = elim (Option-cases (find_tool (strip call.name) tools)) [
    | inl missing ↦ rw missing refl
    | inr (t, found) ↦ rw found (no_more (strip call.name) _ t w found)
  ]

  asked-run_calls :
      (calls : List ToolCall) (p : Progress W)
      → asked (run_calls time json_arg chat tools calls p).world ≡ asked p.world
  unfolding run_calls
  asked-run_calls [] p = refl
  asked-run_calls (call ∷ calls) p =
      omega (arith, asked-run_calls calls _, asked-step_of call p.world)

  asked-round_end :
      (go_on : Answer → W → Investigation × W) (trigger : List ℕ) (steps : List Step)
      (out : Outcome Answer) (w : W) (bound : ℕ)
      → asked w ≤ bound
      → ((a : Answer) → asked (go_on a w).1 ≤ bound)
      → asked (round_end time json_arg chat go_on trigger steps out w).1 ≤ bound
  asked-round_end go_on trigger steps (raised exc) w bound h k = h
  asked-round_end go_on trigger steps (returned a) w bound h k =
      elim (Bool-cases (is_empty a.tool_calls)) [ inl done ↦ rw done h | inr more ↦ rw more (k a) ]

  asked-rounds :
      (left max_steps : ℕ) (trigger : List ℕ) (p : Progress W)
      → asked (rounds time json_arg chat left max_steps trigger tools p).1
        ≤ asked p.world + (left + 1)
  unfolding rounds
  asked-rounds zero max_steps trigger p = one_more _ _ p.world
  asked-rounds (suc left) max_steps trigger p =
      let (out, w) = chat p.messages (build_tool_schemas tools) p.world in
      let once = one_more p.messages (build_tool_schemas tools) p.world in
      asked-round_end _ trigger p.steps out w _ (omega (arith, once)) (λ a. omega (
        arith,
        once,
        asked-rounds left max_steps trigger (next a w p),
        asked-run_calls a.tool_calls
            (record { messages = p.messages ++ assistant a ∷ []; steps = p.steps; world = w }),
      ))
    where
      next : Answer → W → Progress W → Progress W
      next a w q =
          run_calls time json_arg chat tools a.tool_calls
            (record { messages = q.messages ++ assistant a ∷ []; steps = q.steps; world = w })

  -- An investigation ends after at most `max_steps` rounds: it asks the model at most one time more
  -- than that, where a question is counted once and no tool of the table asks the model.
  pub investigate_budget :
      (prompt trigger : List ℕ) (max_steps : ℕ) (w : W)
      → asked (investigate time json_arg chat prompt trigger tools max_steps w).1
        ≤ asked w + max_steps + 1
  unfolding investigate
  investigate_budget prompt trigger max_steps w =
      omega (arith, asked-rounds max_steps max_steps trigger (start w))
    where
      start : W → Progress W
      start v = record {
        messages =
            system prompt
            ∷ user (codes "Anomaly detected: " ++ (trigger ++ codes "\n\nInvestigate."))
            ∷ [];
        steps = [];
        world = v;
      }
