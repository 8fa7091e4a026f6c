-- ===== src/Agent/Tools/Words.antt =====
-- agent/sre_agent.py, the patterns of `choose_tool`: `\btr\b`, `([a-z0-9-]*trusted-router[a-z0-9-]*)` and
-- `\b(\d+[hmd])\b`. A maximal run of the characters of a class is a word of that class.
use srechat.Prelude.{
  ℕ, Bool, true, false, ◌&&◌, ◌||◌, List, [], ◌∷◌, ◌++◌, leb, ◌==◌, if◌then◌else◌, any,
}
use srechat.Text.{codes, text_eq, contains}

abbrev pub is_digit : ℕ → Bool
is_digit c = leb b'0' c && leb c b'9'

abbrev pub is_letter : ℕ → Bool
is_letter c = leb b'a' c && leb c b'z'

-- `\w` on lower-case ASCII text.
abbrev pub is_word : ℕ → Bool
is_word c = is_letter c || is_digit c || c == b'_'

-- `[a-z0-9-]`.
abbrev pub is_revision : ℕ → Bool
is_revision c = is_letter c || is_digit c || c == b'-'

-- The maximal runs of characters of the class, in order; `run` is the one that is read.
unfoldable pub runs : (ℕ → Bool) → List ℕ → List ℕ → List (List ℕ)
runs p run [] = run ∷ []
runs p run (c ∷ s) =
    let inside = runs p (run ++ c ∷ []) s in
    let outside = run ∷ runs p [] s in if p c then inside else outside

unfoldable pub has_word : List ℕ → List ℕ → Bool
unfolding runs text_eq
has_word word t = any (text_eq word) (runs is_word [] t)

abbrev pub first_of : (List ℕ → Bool) → List ℕ → List (List ℕ) → List ℕ
first_of p default [] = default
first_of p default (w ∷ ws) = if p w then w else first_of p default ws

-- `m.group(1) if m else ""`.
unfoldable pub first_revision : List ℕ → List ℕ
unfolding runs
first_revision t = first_of (contains (codes "trusted-router")) [] (runs is_revision [] t)

-- Digits, at least one, and then one of the three letters.
unfoldable pub is_freshness : Bool → List ℕ → Bool
is_freshness after_digit [] = false
is_freshness after_digit (c ∷ []) = after_digit && (c == b'h' || c == b'm' || c == b'd')
is_freshness after_digit (c ∷ (d ∷ w)) = is_digit c && is_freshness true (d ∷ w)

-- `m.group(1) if m else "1h"`.
unfoldable pub first_freshness : List ℕ → List ℕ
unfolding runs is_freshness
first_freshness t = first_of (is_freshness false) (codes "1h") (runs is_word [] t)
