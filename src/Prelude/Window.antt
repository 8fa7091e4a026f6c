-- ===== src/Prelude/Window.antt =====
-- The times that lie within a window before `now`.
use mathlib.Core.List.{append_assoc}
use srechat.Prelude.{
  ℕ, ◌≤◌, ◌<◌, ◌≡◌, refl, sym, ap, List, [], ◌∷◌, ◌++◌, Bool, true, false, arith, within, keep,
  keep-append, length, length-append, append-nil, if◌then◌else◌,
}

unfoldable pub live : ℕ → ℕ → List ℕ → List ℕ
live window now times = keep (λ t. within now t window) times

pub live-live :
    (window now t : ℕ) (xs : List ℕ)
    → t ≤ now
    → live window now (live window t xs) ≡ live window now xs
unfolding live
live-live window now t [] h = refl
live-live window now t (x ∷ xs) h = ground (arith, live-live window now t xs h)

pub length-live_mono :
    (window now t : ℕ) (xs : List ℕ)
    → t ≤ now
    → length (live window now xs) ≤ length (live window t xs)
unfolding live
length-live_mono window now t [] h = omega arith
length-live_mono window now t (x ∷ xs) h = ground (arith, length-live_mono window now t xs h)

pub live-append :
    (window now : ℕ) (xs ys : List ℕ)
    → live window now (xs ++ ys) ≡ live window now xs ++ live window now ys
unfolding live
live-append window now xs ys = keep-append (λ t. within now t window) xs ys

length-live_one : (window now t : ℕ) → length (live window now (t ∷ [])) ≤ 1
unfolding live
length-live_one window now t = ground arith

-- One more time, where there was room at an earlier clock reading.
pub length-live_one_more :
    (window limit checked t now : ℕ) (times : List ℕ)
    → checked ≤ now
    → length (live window checked times) < limit
    → length (live window now (times ++ t ∷ [])) ≤ limit
length-live_one_more window limit checked t now times le room = omega (
  arith,
  length-live_mono window now checked times le,
  ap (length {A = ℕ}) (live-append window now times (t ∷ [])),
  length-append {0} (live window now times) (live window now (t ∷ [])),
  length-live_one window now t,
)

-- A time that is added or not.
abbrev pub added : Bool → ℕ → List ℕ
added b t = if b then t ∷ [] else []

pub added-append :
    (b : Bool) (t : ℕ) (rest told : List ℕ)
    → told ++ (if b then t ∷ rest else rest) ≡ (told ++ added b t) ++ rest
added-append true t rest told = sym (append_assoc told (t ∷ []) rest)
added-append false t rest told = rw append-nil
