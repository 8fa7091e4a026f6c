-- ===== src/Agent/Chat.antt =====
-- agent/sre_agent.py: `handle`, `ask_llm`, `chat_with_tools` and the journal of the tools. The gateway, the
-- tools and `send` are parameters; `system` is SYSTEM_PROMPT.
pub mod Answers
pub mod Journal
mod Tests
use srechat.Prelude.{
  ℕ, zero, suc, ◌+◌, ◌-◌, Bool, true, false, not, ◌&&◌, ◌||◌, Option, none, some, List, [], ◌∷◌,
  ◌++◌, if◌then◌else◌, is_empty, length, take, drop, Outcome, returned, raised, any,
}
use srechat.Text.{codes, show, lower, strip, starts_with, text_eq, join}
use srechat.Agent.Tools.{choose_tool}

-- What a model is asked, apart from the tools.
pub record Payload (M : Type 0) : Type 0 where
  pub model : List ℕ
  pub models : List (List ℕ)
  pub messages : List M
  pub max_tokens : ℕ

-- What comes back: the message of the first choice, whose keys may be missing or null, an HTTP error with
-- its body, the reading or decoding of which may raise, or another exception.
pub record Completion : Type 0 where
  pub content : Option (List ℕ)
  pub reasoning_content : Option (List ℕ)

pub data Posted : Type 0 where
  completed : Completion → Posted
  http_error : ℕ → Outcome (List ℕ) → Posted
  unavailable : List ℕ → Posted

-- `text or ""`.
abbrev pub or_blank : Option (List ℕ) → List ℕ
or_blank none = []
or_blank (some text) = text

abbrev pub or_text : List ℕ → List ℕ → List ℕ
or_text text other = if is_empty text then other else text

unfoldable pub fallback_models : List ℕ → List (List ℕ)
unfolding text_eq
fallback_models model =
    model
    ∷ (if text_eq model (codes "trustedrouter/auto") then [] else codes "trustedrouter/auto" ∷ [])

abbrev pub chat_prompt : List ℕ → List ℕ → List ℕ
chat_prompt question output =
    codes "<untrusted_chat_message>\n"
    ++ (question
        ++ (codes "\n</untrusted_chat_message>\n\n<tool_output>\n"
            ++ (or_text output (codes "(no tool was run)")
                ++ codes
                    "\n</tool_output>\n\nAnswer the user's question using the tool output where relevant.")))

-- Each message is its role and its content.
unfoldable pub ask_payload : List ℕ → List ℕ → List ℕ → List ℕ → Payload (List ℕ × List ℕ)
unfolding fallback_models
ask_payload model system question output = record {
  model = model;
  models = fallback_models model;
  messages = (codes "system", system) ∷ (codes "user", chat_prompt question output) ∷ [];
  max_tokens = 2000;
}

unfoldable pub reply_of : Posted → Outcome (List ℕ)
unfolding strip
reply_of (completed c) = returned (
    or_text (or_text (strip (or_blank c.content)) (strip (or_blank c.reasoning_content)))
      (codes "(LLM returned an empty response)"))
reply_of (http_error code (returned body)) =
    returned (codes "(LLM error " ++ (show code ++ (codes ": " ++ (take 200 body ++ codes ")"))))
reply_of (http_error code (raised exc)) = raised exc
reply_of (unavailable exc) = returned (codes "(LLM unavailable: " ++ (exc ++ codes ")"))

abbrev pub no_key_reply : List ℕ
no_key_reply =
    codes
      "(no TR_API_KEY configured — I can still run tools; ask me for `health`, `replication`, `instances`, `containers`, `logs`, `wireguard`.)"

unfoldable pub ask_llm :
    {W : Type 0}
    → (Payload (List ℕ × List ℕ) → W → Posted × W)
    → Bool
    → List ℕ
    → List ℕ
    → List ℕ
    → List ℕ
    → W
    → Outcome (List ℕ) × W
unfolding ask_payload reply_of
ask_llm post has_key model system question output w =
    let (posted, w') = post (ask_payload model system question output) w in
    if has_key then (reply_of posted, w') else (returned no_key_reply, w)

-- `del entries[:-limit]`.
unfoldable pub newest : ℕ → List (List ℕ) → List (List ℕ)
newest limit entries = drop (length entries - limit) entries

abbrev pub entry_of : List ℕ → List ℕ → List ℕ → List ℕ → List ℕ
entry_of stamp tool arg output =
    codes "["
    ++ (stamp
        ++ (codes "] $ " ++ (tool ++ (codes " " ++ (arg ++ (codes "\n" ++ take 2000 output))))))

-- `_journal`.
unfoldable pub journal : List ℕ → List ℕ → List ℕ → List ℕ → List (List ℕ) → List (List ℕ)
unfolding newest
journal stamp tool arg output entries = newest 200 (entries ++ entry_of stamp tool arg output ∷ [])

unfoldable pub journal_text : List (List ℕ) → List ℕ
unfolding join
journal_text entries =
    or_text (join (codes "\n\n") entries) (codes "(no tool actions recorded this session)")

abbrev pub is_help : List ℕ → Bool
is_help text = any (text_eq text) (codes "help" ∷ codes "/help" ∷ codes "?" ∷ [])

abbrev pub help_text : Bool → List ℕ → ℕ → List ℕ → List ℕ
help_text actionable cloud region model =
    codes "I'm SREAgent on the "
    ++ (cloud
        ++ (codes " master (region "
            ++ (show region
                ++ (codes "), answering via "
                    ++ (model
                        ++ (codes
                              ". I watch the three-cloud SREChat deployment.\n\nAsk me things like:\n  • is everything healthy?\n  • are the regions converging?\n  • show me the containers / wireguard / app logs\n"
                            ++ (if actionable
                                then codes
                                    "  • show me the GCP instances / DNS\n  • restart the app (this region)\n\nI can read GCP and restart region 0's own containers. I have no access to AWS or Azure — they stay independent on purpose."
                                else codes "\nI'm a READ-ONLY monitor on the "
                                  ++ (cloud
                                      ++ codes
                                          " master. For restarts or GCP, ask region 0's agent (sre-agent-0)."))))))))

abbrev pub tool_output_of : List ℕ → List ℕ → List ℕ → List ℕ
tool_output_of tool arg result =
    codes "$ " ++ (tool ++ (codes " " ++ (arg ++ (codes "\n" ++ result))))

-- The end of `handle`: what is sent, from the model's reply and the output of the tool.
unfoldable pub answer_of : List ℕ → List ℕ → List ℕ
unfolding strip starts_with
answer_of reply output =
    let failed = is_empty reply || starts_with (codes "(") reply in
    or_text
      (if failed && not (is_empty output) then strip (output ++ (codes "\n\n" ++ reply)) else reply)
      (codes "(no answer produced — try `help` for the commands I can run)")

module _ {W : Type 0} (actionable full_power has_key : Bool) (cloud : List ℕ) (region : ℕ)
    (model system : List ℕ) (post : Payload (List ℕ × List ℕ) → W → Posted × W)
    (run_tool : List ℕ → List ℕ → W → Outcome (List ℕ) × W) (stamp : W → List ℕ) where
  abbrev pub Chat : Type 0
  Chat = List (List ℕ) × W

  abbrev pub answered : List ℕ → List (List ℕ) → Outcome (List ℕ) × W → Outcome (List ℕ) × Chat
  answered output entries (raised exc, w) = (raised exc, (entries, w))
  answered output entries (returned reply, w) = (returned (answer_of reply output), (entries, w))

  -- The model is asked about the output of the tool, which is empty where none ran.
  abbrev pub asked : List ℕ → List ℕ → Chat → Outcome (List ℕ) × Chat
  asked text output (entries, w) =
      answered output entries (ask_llm post has_key model system text output w)

  abbrev pub tool_ended :
      List ℕ → List ℕ → List ℕ → List (List ℕ) → Outcome (List ℕ) × W → Outcome (List ℕ) × Chat
  tool_ended text tool arg entries (raised exc, w) = (raised exc, (entries, w))
  tool_ended text tool arg entries (returned result, w) =
      asked text (tool_output_of tool arg result) (journal (stamp w) tool arg result entries, w)

  abbrev pub with_tool : List ℕ → List ℕ × List ℕ → Chat → Outcome (List ℕ) × Chat
  with_tool text (tool, arg) (entries, w) =
      if is_empty tool
      then asked text [] (entries, w)
      else tool_ended text tool arg entries (run_tool tool arg w)

  -- The text that `handle` sends, or what the tool raises, and the journal.
  unfoldable pub handled : List ℕ → Chat → Outcome (List ℕ) × Chat
  unfolding ask_llm answer_of journal choose_tool strip lower text_eq
  handled text chat =
      if is_help (lower (strip text))
      then (returned (help_text actionable cloud region model), chat)
      else with_tool text (choose_tool actionable full_power text) chat

  abbrev pub send_answer :
      (List ℕ → List ℕ → W → Outcome (Unit {0}) × W)
      → List ℕ
      → Outcome (List ℕ) × Chat
      → Outcome (Unit {0}) × Chat
  send_answer send sender (raised exc, chat) = (raised exc, chat)
  send_answer send sender (returned reply, (entries, w)) =
      let (out, w') = send sender reply w in (out, (entries, w'))

  unfoldable pub handle :
      (List ℕ → List ℕ → W → Outcome (Unit {0}) × W)
      → List ℕ
      → List ℕ
      → Chat
      → Outcome (Unit {0}) × Chat
  unfolding handled
  handle send sender text chat = send_answer send sender (handled text chat)

-- `chat_with_tools` on the answer of the gateway: an empty message takes the model's reasoning instead.
pub record ToolMessage : Type 0 where
  pub content : Option (List ℕ)
  pub reasoning_content : Option (List ℕ)
  pub has_tool_calls : Bool

unfoldable pub with_reasoning : ToolMessage → ToolMessage
unfolding strip
with_reasoning m =
    if is_empty (strip (or_blank m.content)) && not m.has_tool_calls
    then record m { content = some (strip (or_blank m.reasoning_content)) }
    else m

abbrev pub message_of : {W : Type 0} → Outcome ToolMessage × W → Outcome ToolMessage × W
message_of (raised exc, w) = (raised exc, w)
message_of (returned m, w) = (returned (with_reasoning m), w)

module _ {W S M : Type 0} (post : Payload M → List S → W → Outcome ToolMessage × W) where
  unfoldable pub chat_with_tools : Bool → List ℕ → List M → List S → W → Outcome ToolMessage × W
  unfolding with_reasoning fallback_models
  chat_with_tools has_key model messages schemas w =
      let answered = message_of (
        post
          (record {
            model = model;
            models = fallback_models model;
            messages = messages;
            max_tokens = 2000;
          })
          schemas w) in
      if has_key then answered else (raised (codes "no TR_API_KEY configured"), w)
