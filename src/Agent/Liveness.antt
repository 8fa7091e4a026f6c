-- ===== src/Agent/Liveness.antt =====
-- agent/sre_agent.py: who is alive and who reports. Times are whole seconds; `seen` is `_agent_seen`,
-- and `own` is `REGION_INDEX`.
pub mod Reporters
pub mod Sightings
use srechat.Prelude.{
  ℕ, ◌+◌, ◌-◌, ◌%◌, max, Bool, true, false, not, ◌&&◌, Option, none, some, List, [], ◌∷◌, ◌++◌,
  ◌==◌, if◌then◌else◌, within, keep,
}
use srechat.Text.{codes, show, starts_with}
use srechat.Dict
use srechat.Dict.{Dict}

unfoldable pub agent_uid : ℕ → List ℕ
agent_uid index = codes "sre-agent-" ++ show index

abbrev pub seen_within : ℕ → ℕ → Option ℕ → Bool
seen_within stale now none = false
seen_within stale now (some last) = within now last stale

module _ (stale now : ℕ) (seen : Dict ℕ) where
  unfoldable pub agent_alive : ℕ → Bool
  agent_alive index = seen_within stale now (Dict.get seen (agent_uid index))

  unfoldable pub owner_is_reporting : ℕ → ℕ → Bool
  unfolding agent_alive
  owner_is_reporting own target = not (target == own) && agent_alive target

  -- The loop of `_primary_reporter` over the order.
  abbrev pub is_first_alive : ℕ → List ℕ → Bool
  is_first_alive own [] = true
  is_first_alive own (index ∷ order) =
      let rest = is_first_alive own order in
      if index == own then true else if agent_alive index then false else rest

  -- `_primary_reporter`, for `regions` regions.
  unfoldable pub primary_reporter : ℕ → ℕ → ℕ → Bool
  unfolding agent_alive
  primary_reporter regions own target = is_first_alive own (
      keep (λ index. not (index == target))
        ((target + 1) % regions ∷ ((target + 2) % regions ∷ [])))

-- `_making_progress`.
unfoldable pub making_progress : ℕ → ℕ → ℕ → Bool
making_progress progress_stale last_progress now = within now last_progress progress_stale

-- The beat of one host; what it raises is swallowed, so that it is a step of the world.
unfoldable pub heartbeat : {W : Type 0} → (List ℕ → W → W) → List (List ℕ) → W → W
heartbeat beat [] w = w
heartbeat beat (host ∷ hosts) w = heartbeat beat hosts (beat host w)

-- `beat_if_alive`: whether it beat, and the world.
unfoldable pub beat_if_alive :
    {W : Type 0} → (List ℕ → W → W) → List (List ℕ) → ℕ → ℕ → ℕ → W → Bool × W
unfolding making_progress heartbeat
beat_if_alive beat hosts progress_stale last_progress now w =
    if making_progress progress_stale last_progress now
    then (true, heartbeat beat hosts w)
    else (false, w)

abbrev pub or_zero : Option ℕ → ℕ
or_zero none = 0
or_zero (some t) = t

-- One sighting. A time before the epoch counts as the epoch, as the default of
-- `_agent_seen.get(uid, 0.0)` makes it.
unfoldable pub refresh_one : ℕ → ℕ → List ℕ × ℕ → Dict ℕ → Dict ℕ
refresh_one local_now server_now (uid, at) seen =
    if starts_with (codes "sre-agent-") uid
    then Dict.put seen uid (max (or_zero (Dict.get seen uid)) (local_now - (server_now - at)))
    else seen

-- The loop of `refresh_agent_liveness` over what the server saw.
unfoldable pub refresh_agent_liveness : ℕ → ℕ → List (List ℕ × ℕ) → Dict ℕ → Dict ℕ
unfolding refresh_one
refresh_agent_liveness local_now server_now [] seen = seen
refresh_agent_liveness local_now server_now (s ∷ sightings) seen =
    refresh_agent_liveness local_now server_now sightings (refresh_one local_now server_now s seen)
