-- ===== src/Agent/Watch/Peers/Silent.antt =====
-- agent/sre_agent.py: an agent that is never heard of is told of once.
use srechat.Prelude.{
  ℕ, ◌+◌, ◌-◌, ◌≤◌, ◌<◌, ◌≡◌, refl, ap, ◌∙◌, Bool, true, false, Option, none, some, List, [], ◌∷◌,
  ◌++◌, arith, leb, length, length-append, within, All,
}
use srechat.Prelude.Window.{live}
use srechat.Text.{text_eq_refl}
use srechat.Dict
use srechat.Dict.{Dict, get-put}
use srechat.Agent.Watch.{Watch, Effect, alert_effect, set_status, or_default, transition}
use srechat.Agent.Watch.Peers.{
  AgentLook, agent_key, agent_down, agent_recovered, set_default_up, watch_agent, agent_looks,
}

-- The look at an agent that was never heard of, by the primary reporter.
abbrev pub silent : ℕ → List ℕ → AgentLook
silent index cloud = record { index = index; cloud = cloud; last = none; is_primary = true }

-- The changes of state that count as flapping at `now`.
abbrev pub recent_flaps : ℕ → ℕ → List ℕ → Watch → List ℕ
recent_flaps flap_window now key s = live flap_window now (or_default [] (Dict.get s.flaps key))

not_within : (t now window : ℕ) → t + window ≤ now → within now t window ≡ false
not_within t now window h = ground arith

leb-above : (a b : ℕ) → b < a → leb a b ≡ false
leb-above a b h = ground arith

module _ (flap_window flaps_to_report started liveness_grace stale : ℕ)
    (is_open : List ℕ → Bool) where
  abbrev told : List ℕ → Bool → List ℕ → List ℕ → ℕ → Watch → List Effect × Watch
  told key up up_msg down_msg now s =
      transition flap_window flaps_to_report is_open key up up_msg down_msg true now s

  -- The state after a change to down.
  abbrev gone_down : List ℕ → ℕ → Watch → Watch
  gone_down key now s = record (set_status key false s) {
    flaps = Dict.put s.flaps key (recent_flaps flap_window now key s ++ now ∷ []);
  }

  transition-down :
      (key up_msg down_msg : List ℕ) (now : ℕ) (s : Watch)
      → Dict.get s.status key ≡ some true
      → length (recent_flaps flap_window now key s) + 1 < flaps_to_report
      → told key false up_msg down_msg now s
        ≡ (alert_effect down_msg key false true ∷ [], gone_down key now s)
  unfolding transition
  transition-down key up_msg down_msg now s h few =
      let recent = recent_flaps flap_window now key s ++ now ∷ [] in
      let calm : leb flaps_to_report (length recent) ≡ false =
        leb-above flaps_to_report (length recent)
          (omega (arith, few, length-append (recent_flaps flap_window now key s) (now ∷ []))) in
      rw (h, calm) refl

  transition-still_down :
      (key up_msg down_msg : List ℕ) (now : ℕ) (s : Watch)
      → Dict.get s.status key ≡ some false
      → told key false up_msg down_msg now s ≡ ([], s)
  unfolding transition
  transition-still_down key up_msg down_msg now s h = rw h refl

  module _ (index : ℕ) (cloud : List ℕ) where
    abbrev key : List ℕ
    key = agent_key index

    abbrev look : ℕ → Watch → List Effect × Watch
    look now s =
        watch_agent flap_window flaps_to_report started liveness_grace stale is_open
          (silent index cloud) now s

    look-early :
        (now : ℕ) (s : Watch) → within now started liveness_grace ≡ true → look now s ≡ ([], s)
    unfolding watch_agent
    look-early now s h = rw h refl

    look-late :
        (now : ℕ) (s : Watch)
        → started + liveness_grace ≤ now
        → started + stale ≤ now
        → look now s
          ≡ told key false
              (agent_recovered (silent index cloud))
              (agent_down (silent index cloud) (now - started))
              now
              (set_default_up key (Dict.get s.status key) s)
    unfolding watch_agent
    look-late now s g h =
        rw (not_within started now liveness_grace g, not_within started now stale h) refl

    get-set_default_up :
        (o : Option Bool) (s : Watch)
        → Dict.get s.status key ≡ o
        → or_default true o ≡ true
        → Dict.get (set_default_up key o s).status key ≡ some true
    get-set_default_up none s e h = get-put s.status key key true ∙ rw (text_eq_refl key) refl
    get-set_default_up (some true) s e h = e
    get-set_default_up (some false) s e h = cc

    flaps-set_default_up : (o : Option Bool) (s : Watch) → (set_default_up key o s).flaps ≡ s.flaps
    flaps-set_default_up none s = refl
    flaps-set_default_up (some was) s = refl

    -- The state when the silence is told of first.
    abbrev first_state : ℕ → Watch → Watch
    first_state now s = gone_down key now (set_default_up key (Dict.get s.status key) s)

    abbrev silence : ℕ → Effect
    silence now = alert_effect (agent_down (silent index cloud) (now - started)) key false true

    look-first :
        (now : ℕ) (s : Watch)
        → started + liveness_grace ≤ now
        → started + stale ≤ now
        → or_default true (Dict.get s.status key) ≡ true
        → length (recent_flaps flap_window now key s) + 1 < flaps_to_report
        → look now s ≡ (silence now ∷ [], first_state now s)
    look-first now s g h up few =
        let s' = set_default_up key (Dict.get s.status key) s in
        let same : length (recent_flaps flap_window now key s')
            ≡ length (recent_flaps flap_window now key s) =
          ap (λ (f : Dict (List ℕ)). length (live flap_window now (or_default [] (Dict.get f key))))
            (flaps-set_default_up (Dict.get s.status key) s) in
        look-late now s g h
        ∙ transition-down key (agent_recovered (silent index cloud))
            (agent_down (silent index cloud) (now - started)) now s'
            (get-set_default_up (Dict.get s.status key) s refl up) (omega (arith, few, same))

    look-quiet :
        (now : ℕ) (s : Watch)
        → started + liveness_grace ≤ now
        → started + stale ≤ now
        → Dict.get s.status key ≡ some false
        → look now s ≡ ([], s)
    look-quiet now s g h e =
        look-late now s g h
        ∙ ap
            (λ (o : Option Bool).
              told key false (agent_recovered (silent index cloud))
                (agent_down (silent index cloud) (now - started)) now (set_default_up key o s))
            e
        ∙ transition-still_down key (agent_recovered (silent index cloud))
            (agent_down (silent index cloud) (now - started)) now s e

    abbrev looks : List ℕ → Watch → List Effect
    looks times s =
        agent_looks flap_window flaps_to_report started liveness_grace stale is_open
          (silent index cloud) times s

    -- The effects of a look and of those behind it.
    abbrev and_looks : List ℕ → List Effect × Watch → List Effect
    and_looks times r = r.0 ++ looks times r.1

    abbrev IsLate : ℕ → Type 0
    IsLate now = (started + liveness_grace ≤ now) × (started + stale ≤ now)

    looks-quiet :
        (times : List ℕ) (s : Watch)
        → All IsLate times
        → Dict.get s.status key ≡ some false
        → looks times s ≡ []
    unfolding agent_looks
    looks-quiet [] s h e = refl
    looks-quiet (now ∷ times) s h e =
        ap (and_looks times) (look-quiet now s h.0.0 h.0.1 e) ∙ looks-quiet times s h.1 e

    looks-early :
        (early times : List ℕ) (s : Watch)
        → All (λ t. within t started liveness_grace ≡ true) early
        → looks (early ++ times) s ≡ looks times s
    unfolding agent_looks
    looks-early [] times s h = refl
    looks-early (now ∷ early) times s h =
        ap (and_looks (early ++ times)) (look-early now s h.0) ∙ looks-early early times s h.1

    -- The primary reporter says nothing of an agent that it never heard of while the grace for liveness runs,
    -- then says once that it is down, at its first look after that grace and the time for staleness, and says
    -- no more at later looks; it did not know the agent as down, and the agent was not about to flap.
    pub agent_looks-silent :
        (early : List ℕ) (now : ℕ) (later : List ℕ) (s : Watch)
        → All (λ t. within t started liveness_grace ≡ true) early
        → All (λ t. (started + liveness_grace ≤ t) × (started + stale ≤ t)) (now ∷ later)
        → or_default true (Dict.get s.status (agent_key index)) ≡ true
        → length (recent_flaps flap_window now (agent_key index) s) + 1 < flaps_to_report
        → agent_looks flap_window flaps_to_report started liveness_grace stale is_open
            (silent index cloud)
            (early ++ now ∷ later)
            s
          ≡ alert_effect
              (agent_down (silent index cloud) (now - started))
              (agent_key index)
              false
              true
            ∷ []
    unfolding agent_looks
    agent_looks-silent early now later s he hl up few =
        looks-early early (now ∷ later) s he
        ∙ ap (and_looks later) (look-first now s hl.0.0 hl.0.1 up few)
        ∙ ap (λ (l : List Effect). silence now ∷ l)
            (looks-quiet later (first_state now s) hl.1 (
              get-put (set_default_up key (Dict.get s.status key) s).status key key false
              ∙ rw (text_eq_refl key) refl))
