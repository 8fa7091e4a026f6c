-- ===== src/Agent/Api/Failover.antt =====
-- agent/sre_agent.py: which hosts `api` asks.
use srechat.Prelude.{ℕ, ◌≡◌, refl, sym, ap, subst, List, [], ◌∷◌, ◌++◌, Outcome, returned, raised}
use srechat.Agent.Api.{or_next, api}

module _ {W A : Type 0} (request : List ℕ → W → Outcome A × W) where
  -- Each host was asked, in order, and raised.
  pub data AllRaise : List (List ℕ) → W → W → Type 0 where
    no_more : {w : W} → AllRaise [] w w
    raises :
        {host : List ℕ} {hosts : List (List ℕ)} {w v : W} (exc : List ℕ)
        → (request host w).0 ≡ raised exc
        → AllRaise hosts (request host w).1 v
        → AllRaise (host ∷ hosts) w v

  -- The first host that answers, after others that raised.
  pub record AnsweredBy (hosts : List (List ℕ)) (w v : W) (a : A) : Type 0 where
    pub before : List (List ℕ)
    pub host : List ℕ
    pub later : List (List ℕ)
    pub order : hosts ≡ before ++ host ∷ later
    pub state : W
    pub raised_before : AllRaise before w state
    pub answer : request host state ≡ (returned a, v)

  -- What the loop comes to.
  abbrev pub Ended : List (List ℕ) → W → Outcome A × W → Type 0
  Ended hosts w (returned a, v) = AnsweredBy hosts w v a
  Ended hosts w (raised exc, v) = AllRaise hosts w v

  later-Ended :
      (host : List ℕ) (hosts : List (List ℕ)) (exc : List ℕ) (w : W) (r : Outcome A × W)
      → (request host w).0 ≡ raised exc
      → Ended hosts (request host w).1 r
      → Ended (host ∷ hosts) w r
  later-Ended host hosts exc w (raised e, v) h t = raises exc h t
  later-Ended host hosts exc w (returned a, v) h t = record {
    before = host ∷ t.before;
    host = t.host;
    later = t.later;
    order = ap (λ (l : List (List ℕ)). host ∷ l) t.order;
    state = t.state;
    raised_before = raises exc h t.raised_before;
    answer = t.answer;
  }

  next-Ended :
      (host : List ℕ) (hosts : List (List ℕ)) (w : W) (r : Outcome A × W)
      → request host w ≡ r
      → ((exc : List ℕ) (v : W) → Ended hosts v (api request exc hosts v))
      → Ended (host ∷ hosts) w (or_next request (λ exc v. api request exc hosts v) r)
  next-Ended host hosts w (returned a, v) h t = record {
    before = [];
    host = host;
    later = hosts;
    order = refl;
    state = w;
    raised_before = no_more;
    answer = h;
  }
  next-Ended host hosts w (raised exc, v) h t =
      later-Ended host hosts exc w (api request exc hosts v) (ap (λ r. r.0) h)
        (subst (λ u. Ended hosts u (api request exc hosts v)) (sym (ap (λ r. r.1) h)) (t exc v))

  -- A request to the fleet that is answered was answered by the first host of the order that did not
  -- raise, and no later host was asked; one that raises was put to every host, in order, and all of
  -- them raised.
  pub api-Ended :
      (last_error : List ℕ) (hosts : List (List ℕ)) (w : W)
      → Ended hosts w (api request last_error hosts w)
  unfolding api
  api-Ended last_error [] w = no_more
  api-Ended last_error (host ∷ hosts) w =
      next-Ended host hosts w (request host w) refl (λ exc v. api-Ended exc hosts v)
