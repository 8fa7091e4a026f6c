-- ===== src/Agent/Loop/Watched.antt =====
-- agent/sre_agent.py: the watchdog of `main` is not kept from running by what the chat does.
use srechat.Prelude.{
  ℕ, zero, suc, ◌+◌, ◌≤◌, ◌<◌, ◌≡◌, refl, Bool, true, false, arith, if◌then◌else◌, Outcome,
  Bool-cases, inl, inr,
}
use srechat.Agent.Loop.{Poll, Loop, is_watch_due, watched_world, is_sweep_due, round, rounds}

module _ {W : Type 0} (poll : Poll W → Outcome (Unit {0}) × Poll W)
    (watch sweep escalate : W → Outcome (Unit {0}) × W) (clock : W → ℕ) (sleep : W → W)
    (watch_seconds sweep_seconds : ℕ) where
  abbrev turn : Loop W → Loop W
  turn s = round poll watch sweep escalate clock sleep watch_seconds sweep_seconds s

  abbrev is_due : Loop W → Bool
  is_due s = is_watch_due poll clock watch_seconds s

  abbrev turns : ℕ → Loop W → Loop W
  turns n s = rounds poll watch sweep escalate clock sleep watch_seconds sweep_seconds n s

  -- A measure of the world that no part of a round makes smaller.
  pub record Grows (g : W → ℕ) : Type 0 where
    pub by_poll : (s : Poll W) → g s.world ≤ g ((poll s).1.world)
    pub by_watch : (w : W) → g w ≤ g ((watch w).1)
    pub by_sweep : (w : W) → g w ≤ g ((sweep w).1)
    pub by_escalate : (w : W) → g w ≤ g ((escalate w).1)
    pub by_sleep : (w : W) → g w ≤ g (sleep w)

  if-le : (g : W → ℕ) (b : Bool) (n : ℕ) (x y : W) → n ≤ g x → n ≤ g y → n ≤ g (if b then x else y)
  if-le g true n x y h k = h
  if-le g false n x y h k = k

  abbrev looked : Loop W → W
  looked s = watched_world poll watch sweep escalate clock sleep watch_seconds sweep_seconds s

  -- The world of a round before it sleeps.
  abbrev worked : Loop W → W
  worked s =
      let w = looked s in
      if is_sweep_due poll watch sweep escalate clock sleep watch_seconds sweep_seconds s
      then (escalate ((sweep w).1)).1
      else w

  looked-Grows : (g : W → ℕ) → Grows g → (s : Loop W) → g ((poll s.chat).1.world) ≤ g (looked s)
  looked-Grows g h s =
      let w = (poll s.chat).1.world in
      if-le g (is_due s) (g w) ((watch w).1) w (h.by_watch w) (omega arith)

  worked-Grows : (g : W → ℕ) → Grows g → (s : Loop W) → g (looked s) ≤ g (worked s)
  worked-Grows g h s =
      let w = looked s in
      let due = is_sweep_due poll watch sweep escalate clock sleep watch_seconds sweep_seconds s in
      if-le g due (g w) ((escalate ((sweep w).1)).1) w
        (omega (arith, h.by_sweep w, h.by_escalate ((sweep w).1))) (omega arith)

  turn-Grows : (g : W → ℕ) → Grows g → (s : Loop W) → g s.chat.world ≤ g (turn s).chat.world
  unfolding round
  turn-Grows g h s =
      omega (arith, h.by_poll s.chat, looked-Grows g h s, worked-Grows g h s, h.by_sleep (worked s))

  turns-Grows :
      (g : W → ℕ) → Grows g → (n : ℕ) (s : Loop W) → g s.chat.world ≤ g (turns n s).chat.world
  unfolding rounds
  turns-Grows g h zero s = omega arith
  turns-Grows g h (suc n) s = omega (arith, turn-Grows g h s, turns-Grows g h n (turn s))

  -- Nothing turns the clock back, and a round sleeps for a second at least.
  pub record Forward : Type 0 where
    pub clock_grows : Grows clock
    pub sleeps : (w : W) → clock w < clock (sleep w)

  turn-clock : Forward → (s : Loop W) → clock ((poll s.chat).1.world) < clock (turn s).chat.world
  unfolding round
  turn-clock f s = omega (
    arith,
    looked-Grows clock f.clock_grows s,
    worked-Grows clock f.clock_grows s,
    f.sleeps (worked s),
  )

  turn_idle : (s : Loop W) → is_due s ≡ false → (turn s).last_watch ≡ s.last_watch
  unfolding round
  turn_idle s e = rw e refl

  idle-clock :
      (s : Loop W) → is_due s ≡ false → clock ((poll s.chat).1.world) < s.last_watch + watch_seconds
  unfolding is_watch_due
  idle-clock s e = ground (arith, e)

  turn_watched :
      (s : Loop W) → is_due s ≡ true → (turn s).last_watch ≡ clock ((poll s.chat).1.world)
  unfolding round
  turn_watched s e = rw e refl

  turn-last_watch :
      Forward
      → (s : Loop W) → s.last_watch ≤ clock s.chat.world
      → (turn s).last_watch ≤ clock (turn s).chat.world
  turn-last_watch f s h = elim (Bool-cases (is_due s)) [
    | inl e ↦ omega (arith, turn_watched s e, turn-clock f s)
    | inr e ↦ omega (arith, h, turn_idle s e, f.clock_grows.by_poll s.chat, turn-clock f s)
  ]

  rounds-last_watch :
      Forward
      → (n : ℕ) (s : Loop W) → s.last_watch ≤ clock s.chat.world
      → (turns n s).last_watch ≤ clock (turns n s).chat.world
  unfolding rounds
  rounds-last_watch f zero s h = h
  rounds-last_watch f (suc n) s h = rounds-last_watch f n (turn s) (turn-last_watch f s h)

  module _ (looks : W → ℕ) (grows : Grows looks)
      (counts : (w : W) → looks w < looks ((watch w).1)) where
    turn-looks : (s : Loop W) → is_due s ≡ true → looks s.chat.world < looks (turn s).chat.world
    unfolding round
    turn-looks s e =
        let w = (poll s.chat).1.world in
        let now : looks w < looks (looked s) = rw e (counts w) in
        omega
          (arith, grows.by_poll s.chat, now, worked-Grows looks grows s, grows.by_sleep (worked s))

    turns_due :
        Forward
        → (d : ℕ) (s : Loop W) → s.last_watch + watch_seconds ≤ clock s.chat.world + d
        → looks s.chat.world < looks (turns (suc d) s).chat.world
    unfolding rounds
    turns_due f zero s h = elim (Bool-cases (is_due s)) [
      | inl e ↦ turn-looks s e
      | inr e ↦ absurd (omega (arith, h, idle-clock s e, f.clock_grows.by_poll s.chat))
    ]
    turns_due f (suc d) s h = elim (Bool-cases (is_due s)) [
      | inl e ↦ omega (arith, turn-looks s e, turns-Grows looks grows (suc d) (turn s))
      | inr e ↦ omega (
        arith,
        turn-Grows looks grows s,
        turns_due f d (turn s)
            (omega (arith, h, turn_idle s e, f.clock_grows.by_poll s.chat, turn-clock f s)),
      )
    ]

    -- If nothing turns the clock back, each round sleeps for a second or more and the last look was not in
    -- the future, then after any number of rounds the watchdog runs within the next WATCH_SECONDS + 1
    -- rounds, whatever the chat, its messages, the sweep and the watchdog itself raise: a count that each
    -- look raises, and that nothing lowers, has grown by then.
    pub rounds-watched :
        Forward
        → (n : ℕ) (s : Loop W) → s.last_watch ≤ clock s.chat.world
        → looks (turns n s).chat.world < looks (turns (suc watch_seconds) (turns n s)).chat.world
    rounds-watched f n s h =
        turns_due f watch_seconds (turns n s) (omega (arith, rounds-last_watch f n s h))
