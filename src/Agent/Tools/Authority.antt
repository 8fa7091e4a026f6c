-- ===== src/Agent/Tools/Authority.antt =====
-- agent/sre_agent.py: what the tables of tools and the routing of messages allow.
use srechat.Prelude.{
  ℕ, ◌≡◌, refl, Bool, true, false, not, ◌&&◌, ◌||◌, List, [], ◌∷◌, if◌then◌else◌, all, arith,
}
use srechat.Text.{codes, text_eq, lower}
use srechat.Agent.Tools.{
  is_in, tool_names, escalation_tools, mutating_tools, product_tools, investigation_tools,
  signal_tools, local_repair_tools, sweep_tools, if_available, product_tool, restart_tool,
  look_tool, choose_tool,
}
use srechat.Agent.Tools.Words.{first_revision, first_freshness}

abbrev pub is_reading : List ℕ → Bool
is_reading name = not (is_in name mutating_tools) && not (is_in name escalation_tools)

-- Whatever the grants: a signal gets reading tools only, an investigation no tool that reaches a
-- human, a local repair no tool of the product, and a sweep of Sentry issues no restart or shell.
-- Without a grant no tool of the agent changes anything.
pub tool_tables :
    (actionable full_power : Bool)
    → (all is_reading (signal_tools actionable full_power) ≡ true)
      × (all (λ name. not (is_in name escalation_tools)) (investigation_tools actionable full_power)
          ≡ true)
      × (all (λ name. not (is_in name product_tools)) (local_repair_tools actionable full_power)
          ≡ true)
      × (all
            (λ name. not (is_in name (codes "restart" ∷ codes "shell" ∷ [])))
            (sweep_tools actionable full_power (codes "unresolved Sentry issues"))
          ≡ true)
      × (all
            (λ name. not (is_in name mutating_tools) || (actionable || full_power))
            (tool_names actionable full_power)
          ≡ true)
unfolding signal_tools local_repair_tools sweep_tools
tool_tables true true = (refl, refl, refl, refl, refl)
tool_tables true false = (refl, refl, refl, refl, refl)
tool_tables false true = (refl, refl, refl, refl, refl)
tool_tables false false = (refl, refl, refl, refl, refl)

abbrev services : List (List ℕ)
services = codes "redis" ∷ codes "caddy" ∷ codes "app" ∷ []

-- No tool; or a tool of the agent that reaches no human and is no shell, is granted where it changes
-- something, and restarts one of the three services only.
abbrev pub may_route : Bool → Bool → List ℕ × List ℕ → Bool
may_route actionable full_power (tool, arg) =
    text_eq tool []
    || (is_in tool (tool_names actionable full_power)
        && (not (is_in tool escalation_tools)
            && (not (text_eq tool (codes "shell"))
                && ((not (is_in tool mutating_tools) || actionable)
                    && (not (text_eq tool (codes "restart")) || is_in arg services)))))

record MayRoute (actionable full_power : Bool) (chosen : List ℕ × List ℕ) : Type 0 where
  allowed : may_route actionable full_power chosen ≡ true

either :
    {actionable full_power : Bool} (b : Bool) {x y : List ℕ × List ℕ}
    → MayRoute actionable full_power x
    → MayRoute actionable full_power y
    → MayRoute actionable full_power (if b then x else y)
either true hx hy = hx
either false hx hy = hy

-- What holds under all four grants holds.
all_grants : (p : Bool → Bool → Bool) → Bool
all_grants p = p true true && (p true false && (p false true && p false false))

under :
    (actionable full_power : Bool) (p : Bool → Bool → Bool)
    → all_grants p ≡ true
    → p actionable full_power ≡ true
unfolding all_grants
under true true p h = ground arith
under true false p h = ground arith
under false true p h = ground arith
under false false p h = ground arith

module _ (actionable full_power : Bool) where
  abbrev May : List ℕ × List ℕ → Type 0
  May = MayRoute actionable full_power

  -- A tool of the table, and no tool.
  available :
      (name arg : List ℕ)
      → all_grants (λ a f. may_route a f (if_available a f name arg)) ≡ true
      → May (if_available actionable full_power name arg)
  available name arg h = record {
    allowed = under actionable full_power (λ a f. may_route a f (if_available a f name arg)) h;
  }

  fixed :
      (tool arg : List ℕ) → all_grants (λ a f. may_route a f (tool, arg)) ≡ true → May (tool, arg)
  fixed tool arg h = record {
    allowed = under actionable full_power (λ a f. may_route a f (tool, arg)) h;
  }

  product-may : (t : List ℕ) → May (product_tool actionable full_power t)
  unfolding if_available all_grants
  product-may t = either _ (available (codes "sentry") [] refl) (
      either _ (available (codes "tr_rollback") (first_revision t) refl) (
        either _ (available (codes "tr_revisions") [] refl) (
          either _ (available (codes "tr_errors") (first_freshness t) refl)
            (available (codes "tr_status") [] refl))))

  restart-may : (t : List ℕ) → May (restart_tool actionable full_power t)
  unfolding if_available all_grants
  restart-may t = either _ (available (codes "restart") (codes "redis") refl) (
      either _ (available (codes "restart") (codes "caddy") refl)
        (available (codes "restart") (codes "app") refl))

  look-may : (t : List ℕ) → May (look_tool actionable full_power t)
  unfolding if_available all_grants
  look-may t = either _ (fixed (codes "replication_status") [] refl) (
      either _ (fixed (codes "region_health") [] refl) (
        either _ (available (codes "gcp_instances") [] refl) (
          either _ (available (codes "gcp_dns") [] refl) (
            either _ (fixed (codes "containers") [] refl) (
              either _ (fixed (codes "logs") (codes "app") refl)
                (either _ (fixed (codes "wireguard") [] refl) (fixed [] [] refl)))))))

  -- Whatever the message says, `choose_tool` gives no tool, or a tool of the agent that reaches no
  -- human, is no shell, changes something only if the agent is actionable, and restarts no other
  -- service than redis, caddy or app.
  pub choose_tool-may :
      (text : List ℕ)
      → may_route actionable full_power (choose_tool actionable full_power text) ≡ true
  unfolding choose_tool
  choose_tool-may text =
      let t = lower text in
      let m : May (choose_tool actionable full_power text) =
        either _ (product-may t) (either _ (restart-may t) (look-may t)) in
      m.allowed
