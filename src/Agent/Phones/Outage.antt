-- ===== src/Agent/Phones/Outage.antt =====
-- agent/sre_agent.py: the phones are reached while the API is down.
use srechat.Prelude.{
  ℕ, ◌≡◌, refl, ap, ◌∙◌, Bool, true, false, some, List, [], ◌∷◌, ◌++◌, ◌==◌, map, keep,
  if◌then◌else◌, is_empty, Outcome, returned, raised, Bool-cases, inl, inr,
}
use srechat.Disk.{File, load-save}
use srechat.Agent.Phones.{
  Device, Push, push_effect, unregister_effect, after_push, owner_devices, push_devices, push_alert,
}

-- The phones that are pushed to, and those that are dropped, in order.
abbrev pub pushed : List Push → List (List ℕ)
pushed [] = []
pushed (push_effect token env text collapse ∷ pushes) = token ∷ pushed pushes
pushed (unregister_effect token ∷ pushes) = pushed pushes

abbrev pub dropped : List Push → List (List ℕ)
dropped [] = []
dropped (push_effect token env text collapse ∷ pushes) = dropped pushes
dropped (unregister_effect token ∷ pushes) = token ∷ dropped pushes

abbrev pub is_gone : Outcome ℕ → Bool
is_gone (raised exc) = false
is_gone (returned status) = status == 410

module _ (digest : List ℕ → List ℕ) (text : List ℕ) (answer : List ℕ → Outcome ℕ) where
  pushed-after_push :
      (token : List ℕ) (o : Outcome ℕ) (pushes : List Push)
      → pushed (after_push token o ++ pushes) ≡ pushed pushes
  pushed-after_push token (raised exc) pushes = refl
  pushed-after_push token (returned status) pushes = elim (Bool-cases (status == 410)) [
    | inl e ↦ rw e refl
    | inr e ↦ rw e refl
  ]

  dropped-after_push :
      (token : List ℕ) (o : Outcome ℕ) (pushes : List Push)
      → dropped (after_push token o ++ pushes)
        ≡ (if is_gone o then token ∷ dropped pushes else dropped pushes)
  dropped-after_push token (raised exc) pushes = refl
  dropped-after_push token (returned status) pushes = elim (Bool-cases (status == 410)) [
    | inl e ↦ rw e refl
    | inr e ↦ rw e refl
  ]

  abbrev tokens : List Device → List (List ℕ)
  tokens devices = map (λ d. d.token) devices

  pushed-push_devices :
      (devices : List Device) → pushed (push_devices digest text answer devices) ≡ tokens devices
  unfolding push_devices
  pushed-push_devices [] = refl
  pushed-push_devices (d ∷ devices) =
      ap (λ (t : List (List ℕ)). d.token ∷ t)
        (pushed-after_push d.token (answer d.token) (push_devices digest text answer devices)
          ∙ pushed-push_devices devices)

  dropped-push_devices :
      (devices : List Device)
      → dropped (push_devices digest text answer devices)
        ≡ keep (λ t. is_gone (answer t)) (tokens devices)
  unfolding push_devices
  dropped-push_devices [] = refl
  dropped-push_devices (d ∷ devices) =
      dropped-after_push d.token (answer d.token) (push_devices digest text answer devices)
      ∙ ap (λ (t : List (List ℕ)). if is_gone (answer d.token) then d.token ∷ t else t)
          (dropped-push_devices devices)

  cached :
      (devices : List Device) (cache : File (List Device)) (exc : List ℕ)
      → is_empty devices ≡ false
      → cache.writable ≡ true
      → (owner_devices (raised exc) ((owner_devices (returned (some devices)) cache).1)).0 ≡ devices
  unfolding owner_devices
  cached [] cache exc h wr = cc
  cached (d ∷ devices) cache exc h wr = load-save [] (d ∷ devices) cache wr

  -- After a lookup that found phones, with a cache that can be written, an alert whose own lookup raises is
  -- pushed to each of these phones, once and in order, whatever the pushes return or raise; and the phones
  -- that are dropped are those whose push returns 410.
  pub push_alert-outage :
      (devices : List Device) (cache : File (List Device)) (exc : List ℕ)
      → is_empty devices ≡ false
      → cache.writable ≡ true
      → let known = (owner_devices (returned (some devices)) cache).1 in
        let pushes = (push_alert digest text answer true (raised exc) known).0 in
        (pushed pushes ≡ map (λ d. d.token) devices)
        × (dropped pushes ≡ keep (λ t. is_gone (answer t)) (map (λ d. d.token) devices))
  unfolding push_alert
  push_alert-outage devices cache exc h wr =
      let same = ap (push_devices digest text answer) (cached devices cache exc h wr) in
      (ap pushed same ∙ pushed-push_devices devices, ap dropped same ∙ dropped-push_devices devices)
