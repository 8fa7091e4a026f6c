-- ===== src/Text/Strip.antt =====
-- `str.strip` and what it leaves.
use srechat.Prelude.{
  ℕ, ◌≡◌, refl, ap, ◌∙◌, Bool, false, ◌&&◌, ◌||◌, List, [], ◌∷◌, ◌++◌, arith, leb, ◌==◌,
  if◌then◌else◌, is_empty,
}

-- `str.isspace` of one character.
unfoldable pub is_space : ℕ → Bool
is_space c =
    (leb 9 c && leb c 13)
    || (leb 28 c && leb c 32)
    || c == 0x85
    || c == 0xa0
    || c == 0x1680
    || (leb 0x2000 c && leb c 0x200a)
    || c == 0x2028
    || c == 0x2029
    || c == 0x202f
    || c == 0x205f
    || c == 0x3000

-- `s.lstrip()` where `p` is `is_space`, and `s.lstrip(chars)` where `p` is membership in `chars`.
unfoldable pub lstrip : (ℕ → Bool) → List ℕ → List ℕ
lstrip p [] = []
lstrip p (c ∷ s) = let rest = lstrip p s in if p c then rest else c ∷ s

unfoldable pub rstrip : (ℕ → Bool) → List ℕ → List ℕ
rstrip p [] = []
rstrip p (c ∷ s) = let rest = rstrip p s in if is_empty rest && p c then [] else c ∷ rest

unfoldable pub strip_by : (ℕ → Bool) → List ℕ → List ℕ
unfolding lstrip rstrip
strip_by p s = rstrip p (lstrip p s)

unfoldable pub strip : List ℕ → List ℕ
unfolding strip_by is_space
strip s = strip_by is_space s

module _ (p : ℕ → Bool) where
  lstrip-rstrip-lstrip : (s : List ℕ) → lstrip p (rstrip p (lstrip p s)) ≡ rstrip p (lstrip p s)
  unfolding lstrip rstrip
  lstrip-rstrip-lstrip [] = refl
  lstrip-rstrip-lstrip (c ∷ s) = ground (arith, lstrip-rstrip-lstrip s)

  rstrip-rstrip : (s : List ℕ) → rstrip p (rstrip p s) ≡ rstrip p s
  unfolding rstrip
  rstrip-rstrip [] = refl
  rstrip-rstrip (c ∷ s) = ground (arith, rstrip-rstrip s)

  -- What ends in a kept character keeps all that stands before.
  pub rstrip-append :
      (xs s : List ℕ) → is_empty (rstrip p s) ≡ false → rstrip p (xs ++ s) ≡ xs ++ rstrip p s
  unfolding rstrip
  rstrip-append [] s h = refl
  rstrip-append (c ∷ xs) s h =
      ground (arith, rstrip-append xs s h, is_empty-append xs (rstrip p s) h)
    where
      is_empty-append : (xs ys : List ℕ) → is_empty ys ≡ false → is_empty (xs ++ ys) ≡ false
      is_empty-append [] ys h = h
      is_empty-append (x ∷ xs) ys h = refl

  lstrip_of_kept : (c : ℕ) (s : List ℕ) → p c ≡ false → lstrip p (c ∷ s) ≡ c ∷ s
  unfolding lstrip
  lstrip_of_kept c s h = rw h

  pub strip_by-strip_by : (s : List ℕ) → strip_by p (strip_by p s) ≡ strip_by p s
  unfolding strip_by
  strip_by-strip_by s = rw (lstrip-rstrip-lstrip s) (rstrip-rstrip (lstrip p s))

  -- A text that begins with a kept character and ends in a stripped text is stripped.
  pub strip_by-append :
      (c : ℕ) (xs s : List ℕ)
      → p c ≡ false
      → is_empty (strip_by p s) ≡ false
      → strip_by p (c ∷ (xs ++ strip_by p s)) ≡ c ∷ (xs ++ strip_by p s)
  unfolding strip_by
  strip_by-append c xs s k h =
      let t = rstrip p (lstrip p s) in
      let e : rstrip p t ≡ t = rstrip-rstrip (lstrip p s) in
      rw (lstrip_of_kept c (xs ++ t) k)
        (rstrip-append (c ∷ xs) t (rw e h) ∙ ap (λ (u : List ℕ). (c ∷ xs) ++ u) e)

  -- A text that begins with a kept character, and ends in one that is not all stripped.
  pub strip_by-kept :
      (c : ℕ) (xs s : List ℕ)
      → p c ≡ false
      → is_empty (rstrip p s) ≡ false
      → strip_by p (c ∷ (xs ++ s)) ≡ c ∷ (xs ++ rstrip p s)
  unfolding strip_by
  strip_by-kept c xs s k h = rw (lstrip_of_kept c (xs ++ s) k) (rstrip-append (c ∷ xs) s h)
