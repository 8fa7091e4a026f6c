-- ===== src/Agent/Phones.antt =====
-- agent/sre_agent.py: `owner_devices` with its cache on disk, and `push_alert`. The lookup over the API and
-- the answers of Apple are parameters.
pub mod Outage
mod Tests
use srechat.Prelude.{
  ℕ, Bool, true, false, not, Option, none, some, List, [], ◌∷◌, ◌++◌, ◌==◌, if◌then◌else◌, take,
  is_empty, Outcome, returned, raised,
}
use srechat.Disk.{File, load, save}

-- A registered phone: its token, and `env` of its entry.
pub record Device : Type 0 where
  pub token : List ℕ
  pub env : Option (List ℕ)

-- The phones by the user's metadata, where they are a dict: only some phones are worth a write.
abbrev pub found_devices :
    Option (List Device) → File (List Device) → List Device × File (List Device)
found_devices none cache = ([], cache)
found_devices (some []) cache = ([], cache)
found_devices (some (d ∷ devices)) cache = (d ∷ devices, save (d ∷ devices) cache)

-- The phones, and the cache. A write that fails is logged; where the lookup raises, the cache is read.
unfoldable pub owner_devices :
    Outcome (Option (List Device)) → File (List Device) → List Device × File (List Device)
owner_devices (returned found) cache = found_devices found cache
owner_devices (raised exc) cache = (load [] cache, cache)

-- `apns.push(token, "SREChat", text, collapse_id=…, env=env)` and `api("DELETE", f"/me/devices/{token}")`.
pub data Push : Type 0 where
  push_effect : List ℕ → Option (List ℕ) → List ℕ → List ℕ → Push
  unregister_effect : List ℕ → Push

-- What follows a push: a phone whose app is gone is dropped. What the dropping raises is logged.
abbrev pub after_push : List ℕ → Outcome ℕ → List Push
after_push token (raised exc) = []
after_push token (returned status) = if status == 410 then unregister_effect token ∷ [] else []

module _ (digest : List ℕ → List ℕ) (text : List ℕ) (answer : List ℕ → Outcome ℕ) where
  -- The loop over the phones; `digest` is the hexadecimal SHA-1 of a text.
  unfoldable pub push_devices : List Device → List Push
  push_devices [] = []
  push_devices (d ∷ devices) =
      push_effect d.token d.env text (take 32 (digest text))
      ∷ (after_push d.token (answer d.token) ++ push_devices devices)

  -- `enabled` is `apns.enabled()`.
  unfoldable pub push_alert :
      Bool → Outcome (Option (List Device)) → File (List Device) → List Push × File (List Device)
  unfolding owner_devices push_devices
  push_alert enabled lookup cache =
      let (devices, cache') = owner_devices lookup cache in
      if enabled then (push_devices devices, cache') else ([], cache)
