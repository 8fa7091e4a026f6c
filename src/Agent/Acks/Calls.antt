-- ===== src/Agent/Acks/Calls.antt =====
-- agent/sre_agent.py: for which incidents `call_human` is called.
use srechat.Prelude.{
  ℕ, ◌≡◌, refl, Bool, true, false, not, ◌&&◌, Option, none, some, List, [], ◌∷◌, map, keep,
  if◌then◌else◌, Outcome, returned, raised, within, Bool-cases, inl, inr, ap, ◌∙◌,
}
use srechat.Dict.{Dict}
use srechat.Agent.Acks.{
  Pending, Effect, chat_effect, call_human_effect, no_reply, due_effect, escalate_items,
  escalate_unacknowledged,
}

-- The predicate does not say that it recovered.
abbrev pub is_unproven : Option (Outcome Bool) → Bool
is_unproven none = true
is_unproven (some (raised exc)) = true
is_unproven (some (returned broken)) = broken

abbrev pub is_due : ℕ → ℕ → List ℕ × Pending → Bool
is_due timeout now item = not (within now item.1.noted_at timeout)

abbrev pub calls : List Effect → List (List ℕ)
calls [] = []
calls (chat_effect text ∷ effects) = calls effects
calls (call_human_effect text ∷ effects) = text ∷ calls effects

calls-due :
    (timeout : ℕ) (key : List ℕ) (summary : List ℕ) (check : Option (Outcome Bool))
    (effects : List Effect)
    → calls (due_effect timeout key summary check ∷ effects)
      ≡ (if is_unproven check then no_reply timeout summary ∷ calls effects else calls effects)
unfolding due_effect
calls-due timeout key summary none effects = refl
calls-due timeout key summary (some (raised exc)) effects = refl
calls-due timeout key summary (some (returned true)) effects = refl
calls-due timeout key summary (some (returned false)) effects = refl

module _ (timeout now : ℕ) where
  abbrev pub message_of : List ℕ × Pending → List ℕ
  message_of item = no_reply timeout item.1.summary

  abbrev pub must_call : List ℕ × Pending → Bool
  must_call item = is_due timeout now item && is_unproven item.1.still_broken

  rung :
      (key : List ℕ) (p : Pending) (b : Bool) (items : List (List ℕ × Pending))
      (told : List (List ℕ))
      → told ≡ map message_of items
      → (if b then no_reply timeout p.summary ∷ told else told)
        ≡ map message_of (if b then (key, p) ∷ items else items)
  rung key p true items told c = ap (λ (l : List (List ℕ)). no_reply timeout p.summary ∷ l) c
  rung key p false items told c = c

  items-calls :
      (items : List (List ℕ × Pending))
      → (calls (escalate_items timeout now items).1 ≡ map message_of (keep must_call items))
        × ((escalate_items timeout now items).0
            ≡ keep (λ item. within now item.1.noted_at timeout) items)
  unfolding escalate_items
  items-calls [] = (refl, refl)
  items-calls ((key, p) ∷ items) =
      let (c, k) = items-calls items in
      let e = calls-due timeout key p.summary p.still_broken (escalate_items timeout now items).1 in
      elim (Bool-cases (within now p.noted_at timeout)) [
        | inl waits ↦ rw waits (c, ap (λ (l : List (List ℕ × Pending)). (key, p) ∷ l) k)
        | inr due ↦ rw due (e ∙ rung key p (is_unproven p.still_broken) _ _ c, k)
      ]

  -- `call_human` is called, in order, for exactly those waiting incidents whose time is up and whose
  -- predicate did not say that they recovered: one that raises, or none, counts as not recovered. Every
  -- incident whose time is up is forgotten, and every other one still waits. Whether `call_human` makes
  -- the phone ring, or its limits suppress it, is not part of this.
  pub calls-escalate_unacknowledged :
      (pending : Dict Pending)
      → (calls (escalate_unacknowledged timeout now pending).1
          ≡ map message_of (keep must_call pending.items))
        × ((escalate_unacknowledged timeout now pending).0.items
            ≡ keep (λ item. within now item.1.noted_at timeout) pending.items)
  unfolding escalate_unacknowledged
  calls-escalate_unacknowledged pending = items-calls pending.items
