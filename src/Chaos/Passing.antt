-- ===== src/Chaos/Passing.antt =====
-- tools/chaos/chaos.py: what the regions have shown when the test passes.
use srechat.Prelude.{length, ℕ, ◌+◌, ◌≡◌, Bool, true, false, List, [], ◌∷◌, Outcome}
use srechat.Chaos.{
  Act, Look, sees, has_texts, has_members, Command, asserting, Looked, answered, main, m1, m2, m3,
  ops_a, ops_b, baseline, partition,
}

-- What each region is to show in the end.
abbrev pub final_looks : List Look
final_looks =
    has_texts 0 (m1 ∷ m2 ∷ m3 ∷ [])
    ∷ has_texts 1 (m1 ∷ m2 ∷ m3 ∷ [])
    ∷ has_texts 2 (m1 ∷ m2 ∷ m3 ∷ [])
    ∷ has_members 0 (ops_a ∷ ops_b ∷ [])
    ∷ has_members 1 (ops_a ∷ ops_b ∷ [])
    ∷ has_members 2 (ops_a ∷ ops_b ∷ [])
    ∷ []

module _ {W : Type 0} (act : Act → W → Outcome (Unit {0}) × W) (look : Look → W → Looked × W)
    (clock : W → ℕ) (sleep : W → W) where
  abbrev pub passes : List Command → W → Bool
  passes commands w = (main act look clock sleep commands w).passed

  -- A region gave this answer to a look at this world.
  abbrev pub Shows : Look → Bool → W → Type 0
  Shows l said w = (look l w).0 ≡ answered said

  abbrev pub after : Look → W → W
  after l w = (look l w).1

  -- The rest of a test that passes is reached, and passes.
  record Reached (commands : List Command) : Type 0 where
    start : W
    goes_on : passes commands start ≡ true

  -- A wait that passes has seen a yes.
  abbrev pub Seen : Look → Type 0
  Seen l = (w : W) × Shows l true w

  -- A world in which region 2 holds its own message m3 and not m2, and region 0 does not hold m3, each looked
  -- at after the other.
  abbrev pub Split : Type 0
  Split =
      (w : W) × Shows (sees 2 m3) true w
      × Shows (sees 2 m2) false (after (sees 2 m3) w)
      × Shows (sees 0 m3) false (after (sees 2 m2) (after (sees 2 m3) w))

  split_commands : List Command
  split_commands =
      asserting (sees 2 m3) true ∷ asserting (sees 2 m2) false ∷ asserting (sees 0 m3) false ∷ []

  abbrev to_split : ℕ
  to_split = length baseline + 4

  abbrev to_heal : ℕ
  to_heal = length baseline + length partition + 1
