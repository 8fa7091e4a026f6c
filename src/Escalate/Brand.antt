-- ===== src/Escalate/Brand.antt =====
-- agent/escalate.py: `branded` and `_spoken`.
use srechat.Prelude.{
  ℕ, ◌≡◌, refl, ◌∙◌, Bool-cases, inl, inr, true, false, List, [], ◌∷◌, ◌++◌, ◌==◌, if◌then◌else◌,
  take, drop, is_empty,
}
use srechat.Text.{
  codes, lower, starts_with, starts_with-append, strip, is_space, strip_by-strip_by,
  strip_by-append,
}

unfoldable pub brand : List ℕ
brand = codes "Trusted Router"

unfoldable pub branded : List ℕ → List ℕ
branded text =
    let body = strip text in
    if starts_with (lower brand) (lower body) then body else brand ++ (codes ": " ++ body)

-- `text.replace(c, by)` for one character.
unfoldable pub replace_char : ℕ → List ℕ → List ℕ → List ℕ
replace_char c by [] = []
replace_char c by (d ∷ text) =
    if d == c then by ++ replace_char c by text else d ∷ replace_char c by text

-- `_spoken`.
abbrev pub unbranded : List ℕ → List ℕ
unbranded body =
    if starts_with (lower brand ++ codes ":") (lower body)
    then strip (drop 15 body)
    else if starts_with (lower brand) (lower body)
    then strip (drop 14 body)
    else body

unfoldable pub spoken : List ℕ → List ℕ
unfolding brand replace_char
spoken text =
    let clean =
      replace_char b'>' (codes " ")
        (replace_char b'<' (codes " ") (replace_char b'&' (codes " and ") (take 400 text))) in
    let body = unbranded clean in
    brand ++ (codes " notification. " ++ (body ++ (codes ". Again. " ++ (body ++ codes "."))))

lower-append : (s t : List ℕ) → lower (s ++ t) ≡ lower s ++ lower t
unfolding lower
lower-append [] t = refl
lower-append (c ∷ s) t = rw (lower-append s t)

branded_of_starts :
    (text : List ℕ)
    → starts_with (lower brand) (lower (strip text)) ≡ true
    → branded text ≡ strip text
unfolding branded
branded_of_starts text e = rw e

strip-brand :
    (text : List ℕ)
    → is_empty (strip text) ≡ false
    → strip (brand ++ (codes ": " ++ strip text)) ≡ brand ++ (codes ": " ++ strip text)
unfolding brand strip
strip-brand text h = strip_by-append is_space b'T' (codes "rusted Router: ") text refl h

starts-brand :
    (body : List ℕ) → starts_with (lower brand) (lower (brand ++ (codes ": " ++ body))) ≡ true
starts-brand body =
    rw (lower-append brand (codes ": " ++ body)) (starts_with-append (lower brand) _)

-- Every branded text opens with the brand, up to the case of letters.
pub branded-starts : (text : List ℕ) → starts_with (lower brand) (lower (branded text)) ≡ true
unfolding branded
branded-starts text = elim (Bool-cases (starts_with (lower brand) (lower (strip text)))) [
  | inl e ↦ rw e e
  | inr e ↦ rw e (starts-brand (strip text))
]

strip-branded :
    (text : List ℕ) → is_empty (strip text) ≡ false → strip (branded text) ≡ branded text
unfolding branded
strip-branded text h = elim (Bool-cases (starts_with (lower brand) (lower (strip text)))) [
  | inl e ↦ rw e (unfold strip in strip_by-strip_by is_space text)
  | inr e ↦ rw e (strip-brand text h)
]

-- A text that is not blank is branded once, however often it is branded.
pub branded-branded :
    (text : List ℕ) → is_empty (strip text) ≡ false → branded (branded text) ≡ branded text
branded-branded text h =
    branded_of_starts (branded text) (rw (strip-branded text h) (branded-starts text))
    ∙ strip-branded text h
