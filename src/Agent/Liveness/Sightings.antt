-- ===== src/Agent/Liveness/Sightings.antt =====
-- agent/sre_agent.py: what `refresh_agent_liveness` makes of the sightings of a server.
use srechat.Prelude.{
  ℕ, ◌+◌, ◌-◌, ◌≤◌, ◌≡◌, refl, ap, true, List, [], ◌∷◌, map, max, arith, Bool-cases, inl, inr, All,
  ◌∙◌,
}
use srechat.Text.{codes, starts_with, text_eq, text_eq_refl, text_eq_iff}
use srechat.Dict
use srechat.Dict.{Dict, get-put}
use srechat.Agent.Liveness.{or_zero, refresh_one, refresh_agent_liveness}

abbrev pub last_seen : List ℕ → Dict ℕ → ℕ
last_seen uid seen = or_zero (Dict.get seen uid)

-- The same sightings on a server whose clock is `d` ahead.
abbrev pub shifted : ℕ → List ℕ × ℕ → List ℕ × ℕ
shifted d s = (s.0, s.1 + d)

refresh_one-shifted :
    (d local_now server_now : ℕ) (s : List ℕ × ℕ) (seen : Dict ℕ)
    → refresh_one local_now (server_now + d) (shifted d s) seen
      ≡ refresh_one local_now server_now s seen
unfolding refresh_one
refresh_one-shifted d local_now server_now (uid, at) seen =
    let same : (server_now + d) - (at + d) ≡ server_now - at = omega arith in rw same refl

-- The skew of the server's clock does not matter: only the ages do.
pub refresh_skew :
    (d local_now server_now : ℕ) (sightings : List (List ℕ × ℕ)) (seen : Dict ℕ)
    → refresh_agent_liveness local_now (server_now + d) (map (shifted d) sightings) seen
      ≡ refresh_agent_liveness local_now server_now sightings seen
unfolding refresh_agent_liveness
refresh_skew d local_now server_now [] seen = refl
refresh_skew d local_now server_now (s ∷ sightings) seen =
    ap (refresh_agent_liveness local_now (server_now + d) (map (shifted d) sightings))
      (refresh_one-shifted d local_now server_now s seen)
    ∙ refresh_skew d local_now server_now sightings (refresh_one local_now server_now s seen)

module _ (local_now server_now : ℕ) where
  abbrev pub seen_at : ℕ → ℕ
  seen_at at = local_now - (server_now - at)

  noted :
      (k uid : List ℕ) (at : ℕ) (seen : Dict ℕ)
      → (last_seen k seen ≤ last_seen k (Dict.put seen uid (max (last_seen uid seen) (seen_at at))))
        × (seen_at at ≤ last_seen uid (Dict.put seen uid (max (last_seen uid seen) (seen_at at))))
  noted k uid at seen = (
    elim (Bool-cases (text_eq uid k)) [
      | inl e ↦
          rw (get-put seen uid k (max (last_seen uid seen) (seen_at at)), e)
            (later k uid ((text_eq_iff uid k).0 e))
      | inr e ↦ rw (get-put seen uid k (max (last_seen uid seen) (seen_at at)), e) (omega arith)
    ],
    rw (get-put seen uid uid (max (last_seen uid seen) (seen_at at)), text_eq_refl uid)
        (omega arith),
  )
    where
      later : (k uid : List ℕ) → uid ≡ k → last_seen k seen ≤ max (last_seen uid seen) (seen_at at)
      later k uid e = rw e (omega arith)

  one-later :
      (s : List ℕ × ℕ) (k : List ℕ) (seen : Dict ℕ)
      → last_seen k seen ≤ last_seen k (refresh_one local_now server_now s seen)
  unfolding refresh_one
  one-later (uid, at) k seen = elim (Bool-cases (starts_with (codes "sre-agent-") uid)) [
    | inl e ↦ rw e (noted k uid at seen).0
    | inr e ↦ rw e (omega arith)
  ]

  one-fresh :
      (s : List ℕ × ℕ) (seen : Dict ℕ)
      → starts_with (codes "sre-agent-") s.0 ≡ true
      → seen_at s.1 ≤ last_seen s.0 (refresh_one local_now server_now s seen)
  unfolding refresh_one
  one-fresh (uid, at) seen e = rw e (noted uid uid at seen).1

  -- No agent's last sighting is put back, and each agent that the server saw was last seen at least
  -- as late as the server says, on the local clock.
  pub refresh_freshest :
      (sightings : List (List ℕ × ℕ)) (seen : Dict ℕ)
      → ((k : List ℕ)
          → last_seen k seen
            ≤ last_seen k (refresh_agent_liveness local_now server_now sightings seen))
        × All
            (λ (s : List ℕ × ℕ).
              starts_with (codes "sre-agent-") s.0 ≡ true
              → seen_at s.1
                ≤ last_seen s.0 (refresh_agent_liveness local_now server_now sightings seen))
            sightings
  unfolding refresh_agent_liveness
  refresh_freshest [] seen = ((λ k. omega arith), tt)
  refresh_freshest (s ∷ sightings) seen =
      let (later, freshest) =
        refresh_freshest sightings (refresh_one local_now server_now s seen) in
      (
        (λ k. omega (arith, one-later s k seen, later k)),
        ((λ e. omega (arith, one-fresh s seen e, later s.0)), freshest),
      )
