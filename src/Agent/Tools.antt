-- ===== src/Agent/Tools.antt =====
-- agent/sre_agent.py: the tables of tools by their names, who is granted which, and `choose_tool`,
-- the keyword routing of a chat message. A tool's function is not part of these tables here.
pub mod Authority
pub mod Words
use srechat.Prelude.{
  ℕ, Bool, true, false, not, ◌&&◌, ◌||◌, List, [], ◌∷◌, ◌++◌, if◌then◌else◌, any, keep,
}
use srechat.Text.{codes, text_eq, contains, lower}
use srechat.Agent.Tools.Words.{has_word, first_revision, first_freshness}

-- `name in names`.
unfoldable pub is_in : List ℕ → List (List ℕ) → Bool
unfolding text_eq
is_in name names = any (text_eq name) names

abbrev pub read_only_tools : List (List ℕ)
read_only_tools =
    codes "region_health"
    ∷ codes "replication_status"
    ∷ codes "containers"
    ∷ codes "logs"
    ∷ codes "wireguard"
    ∷ codes "system_errors"
    ∷ []

abbrev pub escalation_tools : List (List ℕ)
escalation_tools =
    codes "notify_human"
    ∷ codes "sms_human"
    ∷ codes "call_human"
    ∷ codes "email_human"
    ∷ codes "escalation_status"
    ∷ []

abbrev pub actionable_tools : List (List ℕ)
actionable_tools =
    codes "gcp_instances"
    ∷ codes "gcp_dns"
    ∷ codes "restart"
    ∷ codes "tr_status"
    ∷ codes "tr_errors"
    ∷ codes "tr_revisions"
    ∷ codes "sentry"
    ∷ codes "tr_rollback"
    ∷ []

abbrev pub full_power_tools : List (List ℕ)
full_power_tools = codes "shell" ∷ []

abbrev pub signal_read_tools : List (List ℕ)
signal_read_tools =
    codes "region_health"
    ∷ codes "replication_status"
    ∷ codes "containers"
    ∷ codes "logs"
    ∷ codes "wireguard"
    ∷ codes "gcp_instances"
    ∷ codes "gcp_dns"
    ∷ codes "tr_status"
    ∷ codes "tr_errors"
    ∷ codes "tr_revisions"
    ∷ codes "sentry"
    ∷ []

abbrev pub mutating_tools : List (List ℕ)
mutating_tools = codes "shell" ∷ codes "restart" ∷ codes "tr_rollback" ∷ []

abbrev pub product_tools : List (List ℕ)
product_tools =
    codes "tr_rollback"
    ∷ codes "tr_status"
    ∷ codes "tr_errors"
    ∷ codes "tr_revisions"
    ∷ codes "sentry"
    ∷ codes "gcp_instances"
    ∷ codes "gcp_dns"
    ∷ []

-- The grant of a region: `REGION_INDEX in regions and _ALLOW_ACTIONS`.
unfoldable pub granted : Bool → Bool → Bool
granted is_region allow_actions = is_region && allow_actions

-- The authority of an agent: `ACTIONABLE` and `FULL_POWER`.
module _ (actionable full_power : Bool) where
  -- `TOOLS`.
  unfoldable pub tool_names : List (List ℕ)
  tool_names =
      read_only_tools
      ++ (escalation_tools
          ++ ((if actionable then actionable_tools else [])
              ++ (if full_power then full_power_tools else [])))

  -- `INVESTIGATION_TOOLS`.
  unfoldable pub investigation_tools : List (List ℕ)
  unfolding tool_names is_in
  investigation_tools = keep (λ name. not (is_in name escalation_tools)) tool_names

  -- `SIGNAL_TOOLS`.
  unfoldable pub signal_tools : List (List ℕ)
  unfolding tool_names is_in
  signal_tools = keep (λ name. is_in name signal_read_tools) tool_names

  -- `_local_repair_tools`.
  unfoldable pub local_repair_tools : List (List ℕ)
  unfolding investigation_tools is_in
  local_repair_tools = keep (λ name. not (is_in name product_tools)) investigation_tools

  -- The tools that `sweep_cloud_errors` gives an investigation of a finding with this label.
  unfoldable pub sweep_tools : List ℕ → List (List ℕ)
  unfolding investigation_tools is_in
  sweep_tools label =
      if is_in label
        (codes "TrustedRouter errors (Cloud Logging)" ∷ codes "unresolved Sentry issues" ∷ [])
      then keep (λ name. not (is_in name (codes "restart" ∷ codes "shell" ∷ [])))
          investigation_tools
      else investigation_tools

  -- `_if_available`.
  unfoldable pub if_available : List ℕ → List ℕ → List ℕ × List ℕ
  unfolding tool_names is_in
  if_available tool arg = if is_in tool tool_names then (tool, arg) else ([], [])

  -- Whether one of the words stands in the text.
  abbrev pub has_any : List (List ℕ) → List ℕ → Bool
  has_any words t = any (λ word. contains word t) words

  -- The questions about the product.
  abbrev pub product_tool : List ℕ → List ℕ × List ℕ
  product_tool t =
      if contains (codes "sentry") t
      then if_available (codes "sentry") []
      else if contains (codes "rollback") t || contains (codes "roll back") t
      then if_available (codes "tr_rollback") (first_revision t)
      else if contains (codes "revision") t || contains (codes "deploy") t
      then if_available (codes "tr_revisions") []
      else if has_any
          (codes "error"
            ∷ codes "exception"
            ∷ codes "failing"
            ∷ codes "500"
            ∷ codes "broken"
            ∷ codes "log"
            ∷ [])
          t
      then if_available (codes "tr_errors") (first_freshness t)
      else if_available (codes "tr_status") []

  abbrev pub restart_tool : List ℕ → List ℕ × List ℕ
  restart_tool t =
      if contains (codes "redis") t
      then if_available (codes "restart") (codes "redis")
      else if contains (codes "caddy") t
      then if_available (codes "restart") (codes "caddy")
      else if_available (codes "restart") (codes "app")

  -- The questions about the chat deployment that change nothing.
  abbrev pub look_tool : List ℕ → List ℕ × List ℕ
  look_tool t =
      if has_any
        (codes "converge" ∷ codes "replicat" ∷ codes "partition" ∷ codes "sync" ∷ codes "lag" ∷ [])
        t
      then (codes "replication_status", [])
      else if has_any
          (codes "health" ∷ codes "up?" ∷ codes "alive" ∷ codes "status" ∷ codes "working" ∷ []) t
      then (codes "region_health", [])
      else if has_any (codes "instance" ∷ codes "vm" ∷ codes "machine" ∷ codes "server" ∷ []) t
      then if_available (codes "gcp_instances") []
      else if contains (codes "dns") t || contains (codes "record") t
      then if_available (codes "gcp_dns") []
      else if contains (codes "container") t || contains (codes "docker") t
      then (codes "containers", [])
      else if contains (codes "log") t
      then (codes "logs", codes "app")
      else if has_any (codes "wireguard" ∷ codes "wg" ∷ codes "mesh" ∷ codes "tunnel" ∷ []) t
      then (codes "wireguard", [])
      else ([], [])

  abbrev pub is_product : List ℕ → Bool
  is_product t =
      contains (codes "trustedrouter") t || has_word (codes "tr") t || contains (codes "sentry") t

  unfoldable pub choose_tool : List ℕ → List ℕ × List ℕ
  unfolding if_available has_word first_revision first_freshness
  choose_tool text =
      let t = lower text in
      if is_product t
      then product_tool t
      else if has_any (codes "restart" ∷ codes "reboot" ∷ codes "bounce" ∷ []) t
      then restart_tool t
      else look_tool t
