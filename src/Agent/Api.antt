-- ===== src/Agent/Api.antt =====
-- agent/sre_agent.py: `api_hosts`, `api` and `tr_bases`, with failing over from host to host. `request`
-- is the HTTP request of the library to one host; it may raise.
pub mod Failover
use srechat.Prelude.{
  ℕ, Bool, true, false, not, Option, none, some, List, [], ◌∷◌, ◌++◌, if◌then◌else◌, is_empty, keep,
  any, Outcome, returned, raised,
}
use srechat.Text.{codes, text_eq}

-- This region first, then its peers.
unfoldable pub api_hosts : List ℕ → List (List ℕ) → List (List ℕ)
api_hosts own regions = own ∷ keep (λ host. not (text_eq host own)) regions

-- `tr_bases`: an override, or the gateway of this region, and then the other gateways.
unfoldable pub tr_bases : List ℕ → Option (List ℕ) → List ℕ → List (List ℕ) → List (List ℕ)
tr_bases override own first gateways =
    let preferred =
      if is_empty override then elim own [ none ↦ first | some g ↦ g ] else override in
    preferred ∷ keep (λ g. not (text_eq g preferred)) gateways

abbrev pub no_host : List ℕ
no_host = codes "no api host configured"

module _ {W A : Type 0} (request : List ℕ → W → Outcome A × W) where
  -- The rest of the loop, on what one host answered; the last error is what is raised.
  abbrev pub or_next : (List ℕ → W → Outcome A × W) → Outcome A × W → Outcome A × W
  or_next next (returned a, w) = (returned a, w)
  or_next next (raised exc, w) = next exc w

  -- The loop of `api` over the hosts.
  unfoldable pub api : List ℕ → List (List ℕ) → W → Outcome A × W
  api last_error [] w = (raised last_error, w)
  api last_error (host ∷ hosts) w = or_next (λ exc w'. api exc hosts w') (request host w)

  -- `_tr_post`: the same loop over the gateways.
  unfoldable pub tr_post : List (List ℕ) → W → Outcome A × W
  unfolding api
  tr_post bases w = api (codes "no TR gateway configured") bases w
