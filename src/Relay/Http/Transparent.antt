-- ===== src/Relay/Http/Transparent.antt =====
-- tools/ws_relay.py: what `handle` has sent to either side, against what it received from the other.
use srechat.Prelude.{ℕ, ◌≡◌, some, List, ◌++◌}
use srechat.Relay.Stream.{at_eof}
use srechat.Relay.Stream.Chunks.{concat}
use srechat.Relay.Http.{client_side, upstream_side, Traffic, Served}

-- These bytes begin with what was sent.
abbrev pub Begins : List ℕ → List ℕ → Type 0
Begins sent bytes = (left : List ℕ) × (sent ++ left ≡ bytes)

-- What the pumps have sent of the chunks, and all of those of a side whose end stopped them.
record Relayed (cs us : List (List ℕ)) (t : Traffic) : Type 0 where
  up : Begins (concat t.up) (concat cs)
  down : Begins (concat t.down) (concat us)
  all_up : t.stopped ≡ some (client_side, at_eof) → concat t.up ≡ concat cs
  all_down : t.stopped ≡ some (upstream_side, at_eof) → concat t.down ≡ concat us

-- What a connection has sent of the bytes of the client and of upstream.
pub record Transparent (client upstream : List ℕ) (s : Served) : Type 0 where
  pub to_upstream : Begins s.to_upstream client
  pub to_client : Begins s.to_client upstream
  pub all_up : s.stopped ≡ some (client_side, at_eof) → s.to_upstream ≡ client
  pub all_down : s.stopped ≡ some (upstream_side, at_eof) → s.to_client ≡ upstream
