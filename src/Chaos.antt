-- ===== src/Chaos.antt =====
-- tools/chaos/chaos.py: the test of three regions under a partition, from the health of the regions on. `W` is
-- the state of the processes and of the regions. `act` does a step and `look` reads a region; what they raise
-- outside of `wait_for` ends the test. Times are tenths of a second.
pub mod Passing
pub mod Waiting
mod Tests
use srechat.Prelude.{
  ℕ, zero, suc, ◌+◌, ◌*◌, Bool, true, false, not, ◌&&◌, ◌||◌, List, [], ◌∷◌, ◌++◌, map, keep, ltb,
  leb, ◌==◌, if◌then◌else◌, Outcome, returned, raised,
}
use srechat.Text.{codes, show, text_eq}

-- A row of the messages of a peer, as the API gives it.
pub record Row : Type 0 where
  pub category : List ℕ
  pub deleted : Bool
  pub text : List ℕ

-- The order of texts by their code points.
unfoldable pub text_le : List ℕ → List ℕ → Bool
text_le [] t = true
text_le (c ∷ s) [] = false
text_le (c ∷ s) (d ∷ t) = ltb c d || (c == d && text_le s t)

unfoldable pub insert_sorted : List ℕ → List (List ℕ) → List (List ℕ)
insert_sorted s [] = s ∷ []
insert_sorted s (t ∷ sorted) = if text_le s t then s ∷ (t ∷ sorted) else t ∷ insert_sorted s sorted

unfoldable pub sort : List (List ℕ) → List (List ℕ)
sort [] = []
sort (s ∷ texts) = insert_sorted s (sort texts)

-- `texts`, on the rows of a region.
unfoldable pub texts_of : List Row → List (List ℕ)
unfolding sort text_eq
texts_of rows = sort (
    map (λ (r : Row). r.text)
      (keep (λ (r : Row). text_eq r.category (codes "message") && not r.deleted) rows))

-- A step of the test: a message, the making of the group, a join, and the links of region 2.
pub data Act : Type 0 where
  send_act : ℕ → List ℕ → Act
  make_group_act : ℕ → Act
  join_act : ℕ → List ℕ → Act
  cut_act : List (ℕ × ℕ) → Act
  heal_act : List (ℕ × ℕ) → Act

-- The links of region 2, in both directions.
abbrev pub links_of_2 : List (ℕ × ℕ)
links_of_2 = (2, 0) ∷ (2, 1) ∷ (0, 2) ∷ (1, 2) ∷ []

-- What is asked of a region: its health, whether it sees a text, whether its texts and the members of the
-- group are these.
pub data Look : Type 0 where
  is_healthy : ℕ → Look
  sees : ℕ → List ℕ → Look
  has_texts : ℕ → List (List ℕ) → Look
  has_members : ℕ → List (List ℕ) → Look

-- A line of `main`: a step, a `wait_for` of some seconds, and an assertion.
pub data Command : Type 0 where
  doing : Act → Command
  waiting : Look → ℕ → Command
  asserting : Look → Bool → Command

abbrev pub m1 : List ℕ
m1 = codes "m1: baseline from region 0"

abbrev pub m2 : List ℕ
m2 = codes "m2: majority side during partition"

abbrev pub m3 : List ℕ
m3 = codes "m3: minority side during partition"

abbrev pub ops_a : List ℕ
ops_a = codes "ops-a"

abbrev pub ops_b : List ℕ
ops_b = codes "ops-b"

abbrev pub baseline : List Command
baseline =
    waiting (is_healthy 0) 120
    ∷ waiting (is_healthy 1) 120
    ∷ waiting (is_healthy 2) 120
    ∷ doing (send_act 0 m1)
    ∷ waiting (sees 0 m1) 60
    ∷ waiting (sees 1 m1) 60
    ∷ waiting (sees 2 m1) 60
    ∷ doing (make_group_act 0)
    ∷ doing (join_act 0 ops_a)
    ∷ waiting (has_members 1 (ops_a ∷ [])) 60
    ∷ waiting (has_members 2 (ops_a ∷ [])) 60
    ∷ []

abbrev pub partition : List Command
partition =
    doing (cut_act links_of_2)
    ∷ doing (send_act 0 m2)
    ∷ doing (send_act 2 m3)
    ∷ waiting (sees 1 m2) 60
    ∷ asserting (sees 2 m3) true
    ∷ asserting (sees 2 m2) false
    ∷ asserting (sees 0 m3) false
    ∷ doing (join_act 1 ops_b)
    ∷ waiting (has_members 0 (ops_a ∷ ops_b ∷ [])) 60
    ∷ asserting (has_members 2 (ops_a ∷ [])) true
    ∷ []

abbrev pub heal : List Command
heal =
    doing (heal_act links_of_2)
    ∷ waiting (has_texts 0 (m1 ∷ m2 ∷ m3 ∷ [])) 60
    ∷ waiting (has_texts 1 (m1 ∷ m2 ∷ m3 ∷ [])) 60
    ∷ waiting (has_texts 2 (m1 ∷ m2 ∷ m3 ∷ [])) 60
    ∷ waiting (has_members 0 (ops_a ∷ ops_b ∷ [])) 60
    ∷ waiting (has_members 1 (ops_a ∷ ops_b ∷ [])) 60
    ∷ waiting (has_members 2 (ops_a ∷ ops_b ∷ [])) 60
    ∷ []

abbrev pub script : List Command
script = baseline ++ (partition ++ heal)

-- What a look gives: an answer, an exception that `wait_for` catches (URLError, OSError, KeyError or
-- JSONDecodeError), or another one.
pub data Looked : Type 0 where
  answered : Bool → Looked
  caught : List ℕ → Looked
  uncaught : List ℕ → Looked

-- The end of a command or of the test: whether it went on, and the world.
pub record Ended (W : Type 0) : Type 0 where
  pub passed : Bool
  pub world : W

abbrev pub ends : {W : Type 0} → Bool → W → Ended W
ends passed w = record { passed = passed; world = w }

module _ {W : Type 0} (act : Act → W → Outcome (Unit {0}) × W) (look : Look → W → Looked × W)
    (clock : W → ℕ) (sleep : W → W) where
  -- One round of `wait_for` on what the look gives, with the rounds behind it.
  abbrev pub round_of : Ended W → Looked × W → Ended W
  round_of more (answered true, w) = ends true w
  round_of more (answered false, w) = more
  round_of more (caught exc, w) = more
  round_of more (uncaught exc, w) = ends false w

  -- The loop of `wait_for`, with fuel: `sleep` waits for 0.4 seconds.
  unfoldable pub wait_for : ℕ → Look → ℕ → W → Ended W
  wait_for zero l deadline w = ends false w
  wait_for (suc fuel) l deadline w =
      let asked = look l w in
      let more = wait_for fuel l deadline (sleep asked.1) in
      if ltb (clock w) deadline then round_of more asked else ends false w

  abbrev pub acted : Outcome (Unit {0}) × W → Ended W
  acted (returned u, w) = ends true w
  acted (raised exc, w) = ends false w

  abbrev pub asserted : Bool → Looked × W → Ended W
  asserted expected (answered said, w) = ends (if expected then said else not said) w
  asserted expected (caught exc, w) = ends false w
  asserted expected (uncaught exc, w) = ends false w

  -- A round of waiting takes a tenth of a second at least.
  unfoldable pub command : Command → W → Ended W
  unfolding wait_for
  command (doing a) w = acted (act a w)
  command (waiting l seconds) w = wait_for (10 * seconds) l (clock w + 10 * seconds) w
  command (asserting l expected) w = asserted expected (look l w)

  -- The body of `main`: `cleanup` comes after it in any case, and PASS and the exit code 0 are `passed`.
  unfoldable pub main : List Command → W → Ended W
  unfolding command
  main [] w = ends true w
  main (c ∷ commands) w =
      let first = command c w in
      let more = main commands first.world in if first.passed then more else first
