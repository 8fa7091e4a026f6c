-- ===== src/Agent/Loop/Once.antt =====
-- agent/sre_agent.py: the loop of `main` takes each message once.
use srechat.Prelude.{
  ℕ, zero, suc, ◌≤◌, max, ◌≡◌, refl, sym, ap, subst, ◌∙◌, Bool, true, false, Option, none, some,
  List, [], ◌∷◌, leb, arith, if◌then◌else◌, Outcome, returned, raised, Bool-cases, inl, inr,
}
use srechat.Text.{text_eq, text_eq_refl, text_eq_iff}
use srechat.Dict
use srechat.Dict.{Dict, get-put}
use srechat.Agent.Loop.{
  Message, Act, Poll, seen_or_zero, seen_of, and_next, perform_routed, on_world, route,
  read_message, read_messages, read_fetched, read_peer, read_peers, read_all, poll, Loop, round,
  rounds,
}

leb-le : (a b : ℕ) → leb a b ≡ false → b ≤ a
leb-le a b h = ground arith

le-leb : (a b : ℕ) → a ≤ b → leb a b ≡ true
le-leb a b h = ground arith

seen_or_zero-if :
    (b : Bool) (n : ℕ) (o : Option ℕ)
    → seen_or_zero (if b then some n else o) ≡ (if b then n else seen_or_zero o)
seen_or_zero-if true n o = refl
seen_or_zero-if false n o = refl

seen_of-put :
    {W : Type 0} (p q : List ℕ) (n : ℕ) (s : Poll W) (w : W)
    → seen_of q (record { seen = Dict.put s.seen p n; world = w })
      ≡ (if text_eq p q then n else seen_of q s)
unfolding seen_of
seen_of-put p q n s w =
    ap seen_or_zero (get-put s.seen p q n) ∙ seen_or_zero-if (text_eq p q) n (Dict.get s.seen q)

same_seen :
    {W : Type 0} (p q : List ℕ) (n : ℕ) (s : Poll W)
    → leb n (seen_of p s) ≡ true
    → seen_of q s ≡ (if text_eq p q then max (seen_of p s) n else seen_of q s)
same_seen p q n s h = elim (Bool-cases (text_eq p q)) [
  | inl e ↦
      let same : seen_of q s ≡ seen_of p s = ap (λ k. seen_of k s) (sym ((text_eq_iff p q).0 e)) in
      rw e (ground (arith, h, same))
  | inr e ↦ rw e refl
]

seen-max :
    {W : Type 0} (p q : List ℕ) (n : ℕ) (s : Poll W)
    → seen_of q s ≤ (if text_eq p q then max (seen_of p s) n else seen_of q s)
seen-max p q n s = elim (Bool-cases (text_eq p q)) [
  | inl e ↦
      let same : seen_of q s ≡ seen_of p s = ap (λ k. seen_of k s) (sym ((text_eq_iff p q).0 e)) in
      rw e (omega (arith, same))
  | inr e ↦ rw e (omega arith)
]

seen_of_same :
    {W : Type 0} (q : List ℕ) (s t : Poll W) → s.seen ≡ t.seen → seen_of q s ≡ seen_of q t
unfolding seen_of
seen_of_same q s t e = ap (λ (d : Dict ℕ). seen_or_zero (Dict.get d q)) e

module _ {W : Type 0} (agent webhook : List ℕ) (act : Act → W → Outcome (Unit {0}) × W) where
  abbrev step : List ℕ → Message → Poll W → Outcome (Unit {0}) × Poll W
  step p m s = read_message agent webhook act p m s

  abbrev new_seen : List ℕ → Message → Poll W → Dict ℕ
  new_seen p m s = Dict.put s.seen p (max (seen_of p s) m.id)

  step_old :
      (p : List ℕ) (m : Message) (s : Poll W)
      → leb m.id (seen_of p s) ≡ true
      → step p m s ≡ (returned tt, s)
  unfolding read_message
  step_old p m s e = rw (read_message, e) refl

  step_new :
      (p : List ℕ) (m : Message) (s : Poll W)
      → leb m.id (seen_of p s) ≡ false
      → step p m s ≡ on_world (new_seen p m s) (perform_routed act (route agent webhook m) s.world)
  unfolding read_message
  step_new p m s e = rw (read_message, e) refl

  seen_of-step :
      (p q : List ℕ) (m : Message) (s : Poll W)
      → seen_of q ((step p m s).1) ≡ (if text_eq p q then max (seen_of p s) m.id else seen_of q s)
  seen_of-step p q m s = elim (Bool-cases (leb m.id (seen_of p s))) [
    | inl e ↦ ap (λ r. seen_of q r.1) (step_old p m s e) ∙ same_seen p q m.id s e
    | inr e ↦
        ap (λ r. seen_of q r.1) (step_new p m s e)
        ∙ seen_of-put p q (max (seen_of p s) m.id) s
            ((perform_routed act (route agent webhook m) s.world).1)
  ]

  -- The ids that were taken from a peer do not go back.
  step_mono : (p q : List ℕ) (m : Message) (s : Poll W) → seen_of q s ≤ seen_of q ((step p m s).1)
  step_mono p q m s = rw (seen_of-step p q m s) (seen-max p q m.id s)

  step_taken : (p : List ℕ) (m : Message) (s : Poll W) → m.id ≤ seen_of p ((step p m s).1)
  step_taken p m s = rw (seen_of-step p p m s, text_eq_refl p) (omega arith)

  -- What the loop comes to from a state: the world changes, and messages are read.
  pub data Later : Poll W → Poll W → Type 0 where
    at_once : {s t : Poll W} → t ≡ s → Later s t
    elsewhere : {s t : Poll W} (u : Poll W) → u.seen ≡ s.seen → Later u t → Later s t
    reading :
        {s t : Poll W} (u : Poll W) (p : List ℕ) (m : Message)
        → u ≡ (step p m s).1
        → Later u t
        → Later s t

  seen_of-Later : (q : List ℕ) (s t : Poll W) → Later s t → seen_of q s ≤ seen_of q t
  seen_of-Later q s t (at_once e) = rw e (omega arith)
  seen_of-Later q s t (elsewhere u e l) = omega (arith, seen_of_same q u s e, seen_of-Later q u t l)
  seen_of-Later q s t (reading u p m e l) =
      omega (arith, step_mono p q m s, ap (λ (r : Poll W). seen_of q r) e, seen_of-Later q u t l)

  Later-Later : (s t u : Poll W) → Later s t → Later t u → Later s u
  Later-Later s t u (at_once e) l = subst (λ v. Later v u) e l
  Later-Later s t u (elsewhere v e k) l = elsewhere v e (Later-Later v t u k l)
  Later-Later s t u (reading v p m e k) l = reading v p m e (Later-Later v t u k l)

  -- A round of reading that goes on from a later state.
  and_next-Later :
      (s : Poll W) (r : Outcome (Unit {0}) × Poll W) (next : Poll W → Outcome (Unit {0}) × Poll W)
      → Later s r.1
      → ((t : Poll W) → Later t (next t).1)
      → Later s (and_next r next).1
  and_next-Later s (raised exc, t) next l k = l
  and_next-Later s (returned u, t) next l k = Later-Later s t (next t).1 l (k t)

  read_messages-Later :
      (p : List ℕ) (ms : List Message) (s : Poll W)
      → Later s (read_messages agent webhook act p ms s).1
  unfolding read_messages
  read_messages-Later p [] s = at_once refl
  read_messages-Later p (m ∷ ms) s =
      and_next-Later s (step p m s) (read_messages agent webhook act p ms)
        (reading ((step p m s).1) p m refl (at_once refl)) (read_messages-Later p ms)

  module _ (fetch_messages : List ℕ → Option ℕ → W → Outcome (List Message) × W) where
    read_fetched-Later :
        (p : List ℕ) (s : Poll W) (r : Outcome (List Message) × W)
        → Later s (read_fetched agent webhook act fetch_messages p s.seen r).1
    read_fetched-Later p s (raised exc, w) = elsewhere (record s { world = w }) refl (at_once refl)
    read_fetched-Later p s (returned ms, w) =
        elsewhere (record s { world = w }) refl (read_messages-Later p ms (record s { world = w }))

    read_peer-Later :
        (peer : Option (List ℕ)) (s : Poll W)
        → Later s (read_peer agent webhook act fetch_messages peer s).1
    read_peer-Later none s = at_once refl
    read_peer-Later (some p) s = elim (Bool-cases (text_eq p agent)) [
      | inl e ↦ rw e (at_once refl)
      | inr e ↦ rw e (read_fetched-Later p s (fetch_messages p (Dict.get s.seen p) s.world))
    ]

    read_peers-Later :
        (peers : List (Option (List ℕ))) (s : Poll W)
        → Later s (read_peers agent webhook act fetch_messages peers s).1
    unfolding read_peers
    read_peers-Later [] s = at_once refl
    read_peers-Later (peer ∷ peers) s =
        and_next-Later s (read_peer agent webhook act fetch_messages peer s)
          (read_peers agent webhook act fetch_messages peers) (read_peer-Later peer s)
          (read_peers-Later peers)

    module _ (fetch_conversations : W → Outcome (List (Option (List ℕ))) × W) where
      abbrev chat_poll : Poll W → Outcome (Unit {0}) × Poll W
      chat_poll s = poll agent webhook act fetch_messages fetch_conversations s

      read_all-Later :
          (s : Poll W) (r : Outcome (List (Option (List ℕ))) × W)
          → Later s (read_all agent webhook act fetch_messages fetch_conversations s.seen r).1
      read_all-Later s (raised exc, w) = elsewhere (record s { world = w }) refl (at_once refl)
      read_all-Later s (returned peers, w) =
          elsewhere (record s { world = w }) refl (read_peers-Later peers (record s { world = w }))

      poll-Later : (s : Poll W) → Later s (chat_poll s).1
      unfolding poll
      poll-Later s = read_all-Later s (fetch_conversations s.world)

      module _ (watch sweep escalate : W → Outcome (Unit {0}) × W) (clock : W → ℕ) (sleep : W → W)
          (watch_seconds sweep_seconds : ℕ) where
        abbrev main_rounds : ℕ → Loop W → Loop W
        main_rounds n s =
            rounds chat_poll watch sweep escalate clock sleep watch_seconds sweep_seconds n s

        rounds-Later : (n : ℕ) (s : Loop W) → Later s.chat (main_rounds n s).chat
        unfolding rounds
        rounds-Later zero s = at_once refl
        rounds-Later (suc n) s =
            let s' =
              round chat_poll watch sweep escalate clock sleep watch_seconds sweep_seconds s in
            Later-Later s.chat (chat_poll s.chat).1 (main_rounds n s').chat (poll-Later s.chat)
              (elsewhere s'.chat refl (rounds-Later n s'))

        -- A message that was read, whether what it started raised or not, is not read again: however the
        -- loop of `main` goes on, with the messages, errors and rounds that may come, reading it does nothing.
        pub read_message-rounds :
            (p : List ℕ) (m : Message) (s : Poll W) (t : Loop W) (n : ℕ)
            → Later (read_message agent webhook act p m s).1 t.chat
            → read_message agent webhook act p m (main_rounds n t).chat
              ≡ (returned tt, (main_rounds n t).chat)
        read_message-rounds p m s t n l =
            let u = (main_rounds n t).chat in
            step_old p m u (
              le-leb m.id (seen_of p u) (
                omega (
                  arith,
                  step_taken p m s,
                  seen_of-Later p (step p m s).1 u
                      (Later-Later (step p m s).1 t.chat u l (rounds-Later n t)),
                )))
