-- ===== src/Dict.antt =====
-- Python's `dict` with text keys. The representation is private: other modules have `dict_laws`.
use srechat.Prelude.{ℕ, ◌≡◌, refl, Option, none, some, List, [], ◌∷◌, arith, if◌then◌else◌}
use srechat.Text.{text_eq, text_eq_iff}

pub record Dict {ℓ} (V : Type ℓ) : Type ℓ where
  pub items : List (List ℕ × V)

module _ {ℓ} {V : Type ℓ} where
  unfoldable pub lookup : List ℕ → List (List ℕ × V) → Option V
  lookup k [] = none
  lookup k ((j, v) ∷ l) = if text_eq j k then some v else lookup k l

  unfoldable pub without : List ℕ → List (List ℕ × V) → List (List ℕ × V)
  without k [] = []
  without k ((j, v) ∷ l) = let rest = without k l in if text_eq j k then rest else (j, v) ∷ rest

  -- An update in place keeps the place of its key, as Python does.
  unfoldable pub insert : List ℕ → V → List (List ℕ × V) → List (List ℕ × V)
  insert k v [] = (k, v) ∷ []
  insert k v ((j, w) ∷ l) = if text_eq j k then (k, v) ∷ l else (j, w) ∷ insert k v l

  pub lookup-without :
      (k j : List ℕ) (l : List (List ℕ × V))
      → lookup j (without k l) ≡ (if text_eq k j then none else lookup j l)
  unfolding lookup without
  lookup-without k j [] = ground arith
  lookup-without k j ((i, v) ∷ l) =
      ground (arith, lookup-without k j l, text_eq_iff i k, text_eq_iff i j, text_eq_iff k j)

  pub lookup-insert :
      (k j : List ℕ) (v : V) (l : List (List ℕ × V))
      → lookup j (insert k v l) ≡ (if text_eq k j then some v else lookup j l)
  unfolding lookup insert
  lookup-insert k j v [] = refl
  lookup-insert k j v ((i, w) ∷ l) =
      ground (arith, lookup-insert k j v l, text_eq_iff i k, text_eq_iff i j, text_eq_iff k j)

  unfoldable pub empty : Dict V
  empty = record { items = [] }

  -- `d.get(k)`
  unfoldable pub get : Dict V → List ℕ → Option V
  unfolding lookup
  get d k = lookup k d.items

  -- `d[k] = v`
  unfoldable pub put : Dict V → List ℕ → V → Dict V
  unfolding insert
  put d k v = record { items = insert k v d.items }

  -- `d.pop(k, None)`, `del d[k]`
  unfoldable pub remove : Dict V → List ℕ → Dict V
  unfolding without
  remove d k = record { items = without k d.items }

  pub get-remove :
      (d : Dict V) (k j : List ℕ) → get (remove d k) j ≡ (if text_eq k j then none else get d j)
  unfolding get remove
  get-remove d k j = lookup-without k j d.items

  pub get-put :
      (d : Dict V) (k j : List ℕ) (v : V)
      → get (put d k v) j ≡ (if text_eq k j then some v else get d j)
  unfolding get put
  get-put d k j v = lookup-insert k j v d.items

pub get-empty {ℓ} : {V : Type ℓ} (k : List ℕ) → get (empty {V = V}) k ≡ none
unfolding get empty lookup
get-empty k = refl

pub ruleset dict_laws = (get-empty, get-remove, get-put)
