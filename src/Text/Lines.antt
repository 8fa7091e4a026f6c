-- ===== src/Text/Lines.antt =====
-- `str.splitlines`.
use mathlib.Core.List.{append_assoc}
use srechat.Prelude.{
  ℕ, zero, suc, ◌≡◌, refl, ap, ◌∙◌, arith, true, false, not, all, take, append-nil, Bool, ◌&&◌,
  ◌||◌, List, [], ◌∷◌, ◌++◌, leb, ◌==◌, if◌then◌else◌,
}

unfoldable pub is_line_break : ℕ → Bool
is_line_break c =
    (leb 10 c && leb c 13) || (leb 28 c && leb c 30) || c == 0x85 || c == 0x2028 || c == 0x2029

-- `lines_from line text`: `line` is what the current line holds so far. `\r\n` is one break, and a
-- break at the end starts no line.
unfoldable pub lines_from : List ℕ → List ℕ → List (List ℕ)
unfolding is_line_break
lines_from [] [] = []
lines_from (c ∷ line) [] = (c ∷ line) ∷ []
lines_from line (c ∷ []) = if is_line_break c then line ∷ [] else (line ++ c ∷ []) ∷ []
lines_from line (c ∷ (d ∷ text)) =
    let after_pair = line ∷ lines_from [] text in
    let after_break = line ∷ lines_from [] (d ∷ text) in
    let inside = lines_from (line ++ c ∷ []) (d ∷ text) in
    if c == 13 && d == 10 then after_pair else if is_line_break c then after_break else inside

unfoldable pub splitlines : List ℕ → List (List ℕ)
unfolding lines_from
splitlines text = lines_from [] text

-- A text with no line break.
abbrev pub IsLine : List ℕ → Type 0
IsLine text = all (λ c. not (is_line_break c)) text ≡ true

pub IsLine-append : (x y : List ℕ) → IsLine x → IsLine y → IsLine (x ++ y)
IsLine-append [] y h k = k
IsLine-append (c ∷ x) y h k = ground (arith, IsLine-append x y)

pub IsLine-take : (n : ℕ) (x : List ℕ) → IsLine x → IsLine (take n x)
IsLine-take zero x h = refl
IsLine-take (suc n) [] h = refl
IsLine-take (suc n) (c ∷ x) h = ground (arith, IsLine-take n x)

inside_line :
    (line : List ℕ) (c d : ℕ) (text : List ℕ)
    → is_line_break c ≡ false
    → lines_from line (c ∷ (d ∷ text)) ≡ lines_from (line ++ c ∷ []) (d ∷ text)
unfolding lines_from
inside_line line c d text h = ground arith

-- What stands before a line feed is one line.
pub lines_from-line_feed :
    (line x : List ℕ) (d : ℕ) (text : List ℕ)
    → IsLine x
    → lines_from line (x ++ 10 ∷ (d ∷ text)) ≡ (line ++ x) ∷ lines_from [] (d ∷ text)
lines_from-line_feed line [] d text h = unfold lines_from in rw append-nil refl
lines_from-line_feed line (c ∷ []) d text h =
    inside_line line c 10 (d ∷ text) (ground arith)
    ∙ lines_from-line_feed (line ++ c ∷ []) [] d text refl
    ∙ rw append-nil refl
lines_from-line_feed line (c ∷ (e ∷ x)) d text h =
    inside_line line c e (x ++ 10 ∷ (d ∷ text)) (ground arith)
    ∙ lines_from-line_feed (line ++ c ∷ []) (e ∷ x) d text (ground arith)
    ∙ ap (λ (l : List ℕ). l ∷ lines_from [] (d ∷ text)) (append_assoc line (c ∷ []) (e ∷ x))

pub splitlines-line_feed :
    (x : List ℕ) (d : ℕ) (text : List ℕ)
    → IsLine x
    → splitlines (x ++ 10 ∷ (d ∷ text)) ≡ x ∷ splitlines (d ∷ text)
unfolding splitlines
splitlines-line_feed x d text h = lines_from-line_feed [] x d text h

-- A text with no break is one line.
lines_from-IsLine :
    (line : List ℕ) (c : ℕ) (x : List ℕ)
    → IsLine (c ∷ x)
    → lines_from line (c ∷ x) ≡ (line ++ c ∷ x) ∷ []
lines_from-IsLine line c [] h = unfold lines_from in ground (arith, h)
lines_from-IsLine line c (d ∷ x) h =
    inside_line line c d x (ground (arith, h))
    ∙ lines_from-IsLine (line ++ c ∷ []) d x (ground (arith, h))
    ∙ ap (λ (l : List ℕ). l ∷ []) (append_assoc line (c ∷ []) (d ∷ x))

pub splitlines-IsLine : (c : ℕ) (x : List ℕ) → IsLine (c ∷ x) → splitlines (c ∷ x) ≡ (c ∷ x) ∷ []
unfolding splitlines
splitlines-IsLine c x h = lines_from-IsLine [] c x h
