-- ===== src/Agent/Signals/Quiet.antt =====
-- agent/sre_agent.py: how long a signal stays boring.
use srechat.Prelude.{
  ℕ, ◌+◌, ◌≤◌, ◌<◌, ◌≡◌, refl, true, some, List, [], ◌∷◌, arith, leb, keep, Bool-cases, inl, inr,
}
use srechat.Text.{text_eq, text_eq_refl}
use srechat.Dict
use srechat.Dict.{Dict, lookup, get-put}
use srechat.Agent.Signals.{signal_fingerprint, still_seen, is_recent, signal_is_duplicate}

-- What keeping does to a key whose value is kept.
lookup-keep :
    (cooldown now t : ℕ) (k : List ℕ) (items : List (List ℕ × ℕ))
    → lookup k items ≡ some t
    → now ≤ t + cooldown
    → lookup k (keep (λ (item : List ℕ × ℕ). leb now (item.1 + cooldown)) items) ≡ some t
unfolding lookup
lookup-keep cooldown now t k [] h l = h
lookup-keep cooldown now t k ((j, u) ∷ items) h l =
    ground (arith, lookup-keep cooldown now t k items)

get-still_seen :
    (cooldown now t : ℕ) (k : List ℕ) (seen : Dict ℕ)
    → Dict.get seen k ≡ some t
    → now ≤ t + cooldown
    → Dict.get (still_seen cooldown now seen) k ≡ some t
unfolding Dict.get still_seen
get-still_seen cooldown now t k seen h l = lookup-keep cooldown now t k seen.items h l

module _ (sha256_hex : List ℕ → List ℕ) (cooldown : ℕ) where
  -- The signals that come in, each at its time, on what is seen.
  unfoldable pub heard : List (ℕ × List ℕ) → Dict ℕ → Dict ℕ
  heard [] seen = seen
  heard ((now, text) ∷ signals) seen =
      heard signals (signal_is_duplicate sha256_hex cooldown text now seen).1

  -- The times do not step back, and none is past the last argument.
  abbrev pub Ordered : ℕ → List (ℕ × List ℕ) → ℕ → Type 0
  Ordered clock [] end = clock ≤ end
  Ordered clock ((t, text) ∷ signals) end = (clock ≤ t) × Ordered t signals end

  Ordered-le :
      (clock : ℕ) (signals : List (ℕ × List ℕ)) (end : ℕ) → Ordered clock signals end → clock ≤ end
  Ordered-le clock [] end h = h
  Ordered-le clock ((t, text) ∷ signals) end h = omega (arith, h.0, Ordered-le t signals end h.1)

  -- The fingerprint is noted at `t` or later.
  abbrev Noted : ℕ → List ℕ → Dict ℕ → Type 0
  Noted t k seen = (u : ℕ) × (Dict.get seen k ≡ some u) × (t ≤ u)

  Noted-put :
      (t now : ℕ) (k j : List ℕ) (seen : Dict ℕ)
      → Noted t k seen
      → t ≤ now
      → Noted t k (Dict.put seen j now)
  Noted-put t now k j seen (u, h, l) m = elim (Bool-cases (text_eq j k)) [
    | inl e ↦ (now, rw (get-put seen j k now, e) refl, m)
    | inr e ↦ (u, rw (get-put seen j k now, e) h, l)
  ]

  Noted-still_seen :
      (t now : ℕ) (k : List ℕ) (seen : Dict ℕ)
      → Noted t k seen
      → now ≤ t + cooldown
      → Noted t k (still_seen cooldown now seen)
  Noted-still_seen t now k seen (u, h, l) m =
      (u, get-still_seen cooldown now u k seen h (omega arith), l)

  Noted-signal :
      (t now : ℕ) (k text : List ℕ) (seen : Dict ℕ)
      → Noted t k seen
      → t ≤ now
      → now ≤ t + cooldown
      → Noted t k (signal_is_duplicate sha256_hex cooldown text now seen).1
  unfolding signal_is_duplicate
  Noted-signal t now k text seen n l m =
      let fp = signal_fingerprint sha256_hex text in
      let put : Noted t k (Dict.put seen fp now) = Noted-put t now k fp seen n l in
      elim (Bool-cases (is_recent cooldown now (Dict.get seen fp))) [
        | inl e ↦ rw e put
        | inr e ↦ rw e (Noted-still_seen t now k (Dict.put seen fp now) put m)
      ]

  Noted-heard :
      (t clock end : ℕ) (k : List ℕ) (signals : List (ℕ × List ℕ)) (seen : Dict ℕ)
      → Noted t k seen
      → t ≤ clock
      → Ordered clock signals end
      → end < t + cooldown
      → Noted t k (heard signals seen)
  unfolding heard
  Noted-heard t clock end k [] seen n l o m = n
  Noted-heard t clock end k ((now, text) ∷ signals) seen n l o m =
      let le = Ordered-le now signals end o.1 in
      Noted-heard t now end k signals _
        (Noted-signal t now k text seen n (omega (arith, o.0)) (omega (arith, le)))
        (omega (arith, o.0)) o.1 m

  Noted-first :
      (t : ℕ) (text : List ℕ) (seen : Dict ℕ)
      → Noted t
          (signal_fingerprint sha256_hex text)
          (signal_is_duplicate sha256_hex cooldown text t seen).1
  unfolding signal_is_duplicate
  Noted-first t text seen =
      let fp = signal_fingerprint sha256_hex text in
      let put : Noted t fp (Dict.put seen fp t) =
        (t, rw (get-put seen fp fp t, text_eq_refl fp) refl, omega arith) in
      elim (Bool-cases (is_recent cooldown t (Dict.get seen fp))) [
        | inl e ↦ rw e put
        | inr e ↦ rw e (Noted-still_seen t t fp (Dict.put seen fp t) put (omega arith))
      ]

  -- A signal that came in, duplicate or not, makes the same signal a duplicate for the cooldown,
  -- whatever other signals come in between, and the same up to its runs of digits: only the
  -- fingerprint counts.
  pub signal_quiet :
      (text text' : List ℕ) (t now : ℕ) (signals : List (ℕ × List ℕ)) (seen : Dict ℕ)
      → signal_fingerprint sha256_hex text' ≡ signal_fingerprint sha256_hex text
      → Ordered t signals now
      → now < t + cooldown
      → (signal_is_duplicate sha256_hex cooldown text' now
          (heard signals (signal_is_duplicate sha256_hex cooldown text t seen).1)).0
        ≡ true
  unfolding signal_is_duplicate
  signal_quiet text text' t now signals seen e o m =
      let (u, h, l) =
        Noted-heard t t now (signal_fingerprint sha256_hex text) signals _ (Noted-first t text seen)
          (omega arith) o m in
      rw (e, h) (ground arith)
