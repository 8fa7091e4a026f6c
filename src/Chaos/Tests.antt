-- ===== src/Chaos/Tests.antt =====
-- Runs of the chaos test.
use srechat.Prelude.{
  ℕ, arith, ◌≤◌, ◌+◌, ◌||◌, ◌==◌, if◌then◌else◌, ◌≡◌, refl, Bool, true, false, not, List, [], ◌∷◌,
  Outcome, returned,
}
use srechat.Text.{codes, text_eq}
use srechat.Chaos.{
  Act, cut_act, heal_act, Look, sees, Row, texts_of, insert_sorted, text_le, m1, m2, m3, main,
  script, Looked, answered, uncaught, wait_for,
}
use srechat.Chaos.Waiting.{wait_for_enough}

-- A world of a clock and whether region 2 is cut off, in which a cut region sees its own messages only.
abbrev World : Type 0
World = ℕ × Bool

abbrev does : Act → World → Outcome (Unit {0}) × World
does (cut_act links) w = (returned tt, (w.0, true))
does (heal_act links) w = (returned tt, (w.0, false))
does other w = (returned tt, w)

abbrev answers : Look → World → Looked × World
answers (sees region text) w =
    (answered (not (w.1) || not (text_eq text (if region == 2 then m2 else m3))), w)
answers other w = (answered true, w)

abbrev clock : World → ℕ
clock w = w.0

abbrev sleep : World → World
sleep w = (w.0 + 4, w.1)

-- A region that raises what `wait_for` does not catch ends the test.
abbrev broken : Look → World → Looked × World
broken l w = (uncaught (codes "HTTPException"), w)

test_fails : (main does broken clock sleep script (0, false)).passed ≡ false
unfolding main
test_fails = refl

looks_take_no_time : (l : Look) (w : World) → clock w ≤ clock (broken l w).1
looks_take_no_time l w = omega arith

sleeps_long : (w : World) → clock w + 4 ≤ clock (sleep w)
sleeps_long w = omega arith

wait_for_enough_example :
    wait_for does broken clock sleep 900 (sees 1 m1) 600 (0, false)
    ≡ wait_for does broken clock sleep 600 (sees 1 m1) 600 (0, false)
wait_for_enough_example =
    wait_for_enough does broken clock sleep looks_take_no_time sleeps_long 600 900 (sees 1 m1) 600
      (0, false) (omega arith) (omega arith)

abbrev row : Bool → List ℕ → Row
row deleted text = record { category = codes "message"; deleted = deleted; text = text }

sorted_texts :
    texts_of (
      row false (codes "b")
      ∷ row true (codes "c")
      ∷ row false (codes "ab")
      ∷ row false (codes "a")
      ∷ [])
    ≡ codes "a" ∷ codes "ab" ∷ codes "b" ∷ []
unfolding texts_of insert_sorted text_le
sorted_texts = refl
