-- ===== src/Escalate/Carriers/Order.antt =====
-- agent/escalate.py: in which order `_try_carriers` calls the carriers, and where it stops.
use srechat.Prelude.{
  ℕ, ◌≡◌, refl, Bool, true, false, List, [], ◌∷◌, ◌++◌, arith, ap, Bool-cases, inl, inr,
}
use srechat.Escalate.Carriers.{Carrier, is_success, try_chain, unconfigured, refused}

module _ {W : Type 0} (text : List ℕ) where
  -- Every available carrier of the list was called, in order, and answered outside 2xx; the others
  -- were not called.
  pub data Tried : List (Carrier W) → W → W → Type 0 where
    none_left : {w : W} → Tried [] w w
    skipped :
        {c : Carrier W} {cs : List (Carrier W)} {w v : W}
        → c.available ≡ false
        → Tried cs w v
        → Tried (c ∷ cs) w v
    failed :
        {c : Carrier W} {cs : List (Carrier W)} {w v : W}
        → c.available ≡ true
        → is_success (c.send text w).0.0 ≡ false
        → Tried cs (c.send text w).1 v
        → Tried (c ∷ cs) w v

  -- The first carrier that is available and answers 2xx, after others that did not.
  pub record DeliveredBy (cs : List (Carrier W)) (w v : W) : Type 0 where
    pub before : List (Carrier W)
    pub carrier : Carrier W
    pub later : List (Carrier W)
    pub chain : cs ≡ before ++ carrier ∷ later
    pub state : W
    pub tried : Tried before w state
    pub available : carrier.available ≡ true
    pub success : is_success (carrier.send text state).0.0 ≡ true
    pub last : v ≡ (carrier.send text state).1

  skip-DeliveredBy :
      {c : Carrier W} {cs : List (Carrier W)} {w v : W}
      → c.available ≡ false
      → DeliveredBy cs w v
      → DeliveredBy (c ∷ cs) w v
  skip-DeliveredBy {c} h d = record {
    before = c ∷ d.before;
    carrier = d.carrier;
    later = d.later;
    chain = ap (λ (t : List (Carrier W)). c ∷ t) d.chain;
    state = d.state;
    tried = skipped h d.tried;
    available = d.available;
    success = d.success;
    last = d.last;
  }

  fail-DeliveredBy :
      {c : Carrier W} {cs : List (Carrier W)} {w v : W}
      → c.available ≡ true
      → is_success (c.send text w).0.0 ≡ false
      → DeliveredBy cs (c.send text w).1 v
      → DeliveredBy (c ∷ cs) w v
  fail-DeliveredBy {c} h f d = record {
    before = c ∷ d.before;
    carrier = d.carrier;
    later = d.later;
    chain = ap (λ (t : List (Carrier W)). c ∷ t) d.chain;
    state = d.state;
    tried = failed h f d.tried;
    available = d.available;
    success = d.success;
    last = d.last;
  }

  chain_ends :
      (attempts : List (List ℕ)) (w : W) → ((try_chain {W = W} [] text attempts w).0.0 ≡ false)
  unfolding try_chain
  chain_ends attempts w = refl

  module _ (c : Carrier W) (cs : List (Carrier W)) (attempts : List (List ℕ)) (w : W) where
    abbrev after_skip : (Bool × List ℕ) × W
    after_skip = try_chain cs text (attempts ++ unconfigured c.name ∷ []) w

    abbrev after_failure : (Bool × List ℕ) × W
    after_failure =
        try_chain cs text (attempts ++ refused c.name (c.send text w).0 ∷ []) (c.send text w).1

    chain_skips : c.available ≡ false → try_chain (c ∷ cs) text attempts w ≡ after_skip
    unfolding try_chain
    chain_skips off = ground arith

    chain_fails :
        c.available ≡ true
        → is_success (c.send text w).0.0 ≡ false
        → try_chain (c ∷ cs) text attempts w ≡ after_failure
    unfolding try_chain
    chain_fails on lost = ground arith

    chain_stops :
        c.available ≡ true
        → is_success (c.send text w).0.0 ≡ true
        → ((try_chain (c ∷ cs) text attempts w).0.0 ≡ true)
          × ((try_chain (c ∷ cs) text attempts w).1 ≡ (c.send text w).1)
    unfolding try_chain
    chain_stops on won = ground arith

  -- A chain that reports delivery stopped at the first available carrier that answered 2xx: those
  -- before it were called if available and failed, and none after it was called.
  pub try_chain-delivered :
      (cs : List (Carrier W)) (attempts : List (List ℕ)) (w : W)
      → (try_chain cs text attempts w).0.0 ≡ true
      → DeliveredBy cs w (try_chain cs text attempts w).1
  try_chain-delivered [] attempts w h = cc (chain_ends attempts w)
  try_chain-delivered (c ∷ cs) attempts w h = elim (Bool-cases c.available) [
    | inl on ↦ elim (Bool-cases (is_success (c.send text w).0.0)) [
      | inl won ↦ record {
        before = [];
        carrier = c;
        later = cs;
        chain = refl;
        state = w;
        tried = none_left;
        available = on;
        success = won;
        last = (chain_stops c cs attempts w on won).1;
      }
      | inr lost ↦
          let e = chain_fails c cs attempts w on lost in
          rw e (
            fail-DeliveredBy on lost (
              try_chain-delivered cs (attempts ++ refused c.name (c.send text w).0 ∷ [])
                (c.send text w).1 (rw e at h)))
    ]
    | inr off ↦
        let e = chain_skips c cs attempts w off in
        rw e (
          skip-DeliveredBy off
            (try_chain-delivered cs (attempts ++ unconfigured c.name ∷ []) w (rw e at h)))
  ]

  -- A chain that reports failure called every available carrier once, in order, and no other; all of
  -- them answered outside 2xx.
  pub try_chain-failed :
      (cs : List (Carrier W)) (attempts : List (List ℕ)) (w : W)
      → (try_chain cs text attempts w).0.0 ≡ false
      → Tried cs w (try_chain cs text attempts w).1
  try_chain-failed [] attempts w h = unfold try_chain in none_left
  try_chain-failed (c ∷ cs) attempts w h = elim (Bool-cases c.available) [
    | inl on ↦ elim (Bool-cases (is_success (c.send text w).0.0)) [
      | inl won ↦ cc ((chain_stops c cs attempts w on won).0)
      | inr lost ↦
          let e = chain_fails c cs attempts w on lost in
          rw e (
            failed on lost (
              try_chain-failed cs (attempts ++ refused c.name (c.send text w).0 ∷ [])
                (c.send text w).1 (rw e at h)))
    ]
    | inr off ↦
        let e = chain_skips c cs attempts w off in
        rw e
          (skipped off (try_chain-failed cs (attempts ++ unconfigured c.name ∷ []) w (rw e at h)))
  ]
