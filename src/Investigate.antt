-- ===== src/Investigate.antt =====
-- agent/investigate.py: the loop that lets the model choose what to look at, and its record.
-- `W` is the state of the world that tools and model act on, `time` its clock in whole seconds.
mod Tests
pub mod Conclusion
pub mod Evidence
pub mod Budget
use srechat.Prelude.{
  ℕ, zero, suc, ◌-◌, Bool, true, false, Option, none, some, List, [], ◌∷◌, ◌++◌, if◌then◌else◌,
  is_empty, take, map, Outcome, returned, raised, ltb, ◌==◌, ◌&&◌, ◌||◌,
}
use srechat.Text.{codes, text_eq, strip, show, join}
use srechat.Investigate.Conclusion.{ensure_fields}

pub record Step : Type 0 where
  pub tool : List ℕ
  pub arg : List ℕ
  pub output : List ℕ
  pub seconds : ℕ

pub record Investigation : Type 0 where
  pub trigger : List ℕ
  pub conclusion : List ℕ
  pub steps : List Step
  pub exhausted : Bool

abbrev pub tools_used : List Step → List (List ℕ)
tools_used steps = map (λ s. s.tool) steps

abbrev pub evidence_of : Step → List ℕ
evidence_of s =
    codes "$ "
    ++ (s.tool
        ++ ((if is_empty s.arg then [] else codes " " ++ s.arg)
            ++ (codes "  (" ++ (show s.seconds ++ (codes ".0s)\n" ++ s.output)))))

-- `Investigation.evidence`.
unfoldable pub evidence : Investigation → List ℕ
evidence i =
    if is_empty i.steps
    then codes "(no tools were run)"
    else join (codes "\n") (map evidence_of i.steps)

-- A call of a tool as the model asks for it: absent parts are empty.
pub record ToolCall : Type 0 where
  pub id : List ℕ
  pub name : List ℕ
  pub arguments : List ℕ

pub record Answer : Type 0 where
  pub content : List ℕ
  pub tool_calls : List ToolCall

pub data Message : Type 0 where
  system user : List ℕ → Message
  assistant : Answer → Message
  tool : List ℕ → List ℕ → Message

pub record Tool (W : Type 0) : Type 0 where
  pub run : List ℕ → W → Outcome (List ℕ) × W
  pub description : List ℕ

abbrev pub ToolTable : Type 0 → Type 0
ToolTable W = List (List ℕ × Tool W)

-- The order of names in `sorted`.
unfoldable pub text_before : List ℕ → List ℕ → Bool
text_before [] t = true
text_before (c ∷ s) [] = false
text_before (c ∷ s) (d ∷ t) = ltb c d || (c == d && text_before s t)

abbrev pub Schema : Type 0
Schema = List ℕ × List ℕ

unfoldable pub insert_schema : Schema → List Schema → List Schema
unfolding text_before
insert_schema s [] = s ∷ []
insert_schema s (t ∷ ts) = if text_before s.0 t.0 then s ∷ (t ∷ ts) else t ∷ insert_schema s ts

abbrev pub max_tool_chars : ℕ
max_tool_chars = 4000

abbrev pub output_of : Outcome (List ℕ) → List ℕ
output_of (returned out) = out
output_of (raised exc) = codes "tool raised " ++ exc

module _ {W : Type 0} where
  -- `build_tool_schemas`: the name and the description of each tool, sorted by name.
  unfoldable pub build_tool_schemas : ToolTable W → List Schema
  unfolding insert_schema
  build_tool_schemas [] = []
  build_tool_schemas ((name, t) ∷ tools) =
      insert_schema (name, t.description) (build_tool_schemas tools)

  -- `tools.get(name)`.
  unfoldable pub find_tool : List ℕ → ToolTable W → Option (Tool W)
  find_tool name [] = none
  find_tool name ((n, t) ∷ tools) = if text_eq n name then some t else find_tool name tools

  -- One tool, or the answer that there is none of that name.
  abbrev pub call_tool : Option (Tool W) → List ℕ → List ℕ → W → List ℕ × W
  call_tool none name arg w = (codes "no such tool: " ++ name, w)
  call_tool (some t) name arg w = let (out, w') = t.run arg w in (output_of out, w')

-- What the loop has so far.
pub record Progress (W : Type 0) : Type 0 where
  pub messages : List Message
  pub steps : List Step
  pub world : W

-- `json_arg` is `str(json.loads(raw).get("arg", ""))`, `none` where that raises.
module _ {W : Type 0} (time : W → ℕ) (json_arg : List ℕ → Option (List ℕ))
    (chat : List Message → List Schema → W → Outcome Answer × W) where
  abbrev pub argument_of : ToolCall → List ℕ
  argument_of call =
      elim (json_arg (if is_empty call.arguments then codes "{}" else call.arguments)) [
        | none ↦ []
        | some arg ↦ arg
      ]

  abbrev pub step_of : ToolTable W → ToolCall → W → Step × W
  step_of tools call w =
      let name = strip call.name in
      let (out, w') = call_tool (find_tool name tools) name (argument_of call) w in
      (
        record {
          tool = name;
          arg = argument_of call;
          output = take max_tool_chars out;
          seconds = time w' - time w;
        },
        w',
      )

  -- The calls of one answer, in order.
  unfoldable pub run_calls : ToolTable W → List ToolCall → Progress W → Progress W
  unfolding find_tool
  run_calls tools [] p = p
  run_calls tools (call ∷ calls) p =
      let (s, w) = step_of tools call p.world in
      run_calls tools calls (record {
        messages = p.messages ++ tool call.id s.output ∷ [];
        steps = p.steps ++ s ∷ [];
        world = w;
      })

  abbrev pub chat_failed : List ℕ → List ℕ
  chat_failed exc =
      codes "CAUSE: UNKNOWN\nEVIDENCE: investigation failed: "
      ++ (exc ++ codes "\nACTION: NONE\nRESOLVED: no")

  abbrev pub out_of_steps : Message
  out_of_steps = user (
      codes
        "You are out of investigation steps. Do not request any more tools. State your conclusion now from what you already saw, in the required format. If you repaired something, say so in ACTION.")

  abbrev pub stated : Outcome Answer → List ℕ
  stated (returned a) = strip a.content
  stated (raised exc) = []

  -- The last question, with no tools.
  abbrev pub ask_once_more : ℕ → List ℕ → Progress W → Investigation × W
  ask_once_more max_steps trigger p =
      let (out, w) = chat (p.messages ++ out_of_steps ∷ []) [] p.world in
      (
        record {
          trigger = trigger;
          conclusion =
              ensure_fields (stated out) (tools_used p.steps)
                (codes "ran out of steps after " ++ (show max_steps ++ codes " rounds"));
          steps = p.steps;
          exhausted = true;
        },
        w,
      )

  -- The end of a round, on what the model answered; `go_on` runs the calls and the next rounds.
  abbrev pub round_end :
      (Answer → W → Investigation × W) → List ℕ → List Step → Outcome Answer → W → Investigation × W
  round_end go_on trigger steps (raised exc) w = (
    record { trigger = trigger; conclusion = chat_failed exc; steps = steps; exhausted = false },
    w,
  )
  round_end go_on trigger steps (returned answer) w =
      if is_empty answer.tool_calls
      then (
        record {
          trigger = trigger;
          conclusion = ensure_fields answer.content (tools_used steps) (codes "concluded normally");
          steps = steps;
          exhausted = false;
        },
        w,
      )
      else go_on answer w

  -- `for _step in range(max_steps)`, with the rounds that are left.
  unfoldable pub rounds : ℕ → ℕ → List ℕ → ToolTable W → Progress W → Investigation × W
  unfolding run_calls ensure_fields
  rounds zero max_steps trigger tools p = ask_once_more max_steps trigger p
  rounds (suc left) max_steps trigger tools p =
      let (out, w) = chat p.messages (build_tool_schemas tools) p.world in
      round_end
        (λ answer w'. rounds left max_steps trigger tools (
          run_calls tools answer.tool_calls (record {
            messages = p.messages ++ assistant answer ∷ [];
            steps = p.steps;
            world = w';
          })))
        trigger p.steps out w

  -- `investigate`; `prompt` is `SYSTEM`.
  unfoldable pub investigate : List ℕ → List ℕ → ToolTable W → ℕ → W → Investigation × W
  unfolding rounds build_tool_schemas
  investigate prompt trigger tools max_steps w = rounds max_steps max_steps trigger tools (record {
    messages =
        system prompt
        ∷ user (codes "Anomaly detected: " ++ (trigger ++ codes "\n\nInvestigate."))
        ∷ [];
    steps = [];
    world = w;
  })
