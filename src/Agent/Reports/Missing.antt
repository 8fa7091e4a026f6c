-- ===== src/Agent/Reports/Missing.antt =====
-- agent/sre_agent.py: `_changed_state` on the call of a tool that does not exist.
use srechat.Prelude.{ℕ, ◌≡◌, refl, true, Option, none, List, [], ◌∷◌, Outcome}
use srechat.Text.{codes, strip, lower, starts_with, text_eq}
use srechat.Investigate.{Answer, Message, Schema, ToolTable, ToolCall, find_tool, step_of}
use srechat.Agent.Tools.{is_in}
use srechat.Agent.Signals.{changed_state}

module _ {W : Type 0} (time : W → ℕ) (json_arg : List ℕ → Option (List ℕ))
    (chat : List Message → List Schema → W → Outcome Answer × W) where
  -- Where the table has no shell, a call of the shell counts as a change of state: its step has the
  -- name of a tool that changes things, and an output that is none of the refusals.
  pub changed_state_missing :
      (tools : ToolTable W) (call : ToolCall) (w : W)
      → find_tool (codes "shell") tools ≡ none
      → strip call.name ≡ codes "shell"
      → changed_state ((step_of time json_arg chat tools call w).0 ∷ []) ≡ true
  unfolding changed_state is_in text_eq lower starts_with strip
  changed_state_missing tools call w h k = rw (k, h) refl
