-- ===== src/Agent/Chat/Answers.antt =====
-- agent/sre_agent.py: `handle` answers with what the tool measured where the model fails, and is never mute.
use srechat.Prelude.{
  ℕ, ◌≡◌, refl, sym, ap, ◌∙◌, Bool, true, false, ◌||◌, ◌&&◌, List, [], ◌∷◌, ◌++◌, arith,
  if◌then◌else◌, is_empty, Outcome, returned, raised, Bool-cases, inl, inr,
}
use srechat.Text.{codes, lower, strip, starts_with, is_space, rstrip, rstrip-append, strip_by-kept}
use srechat.Agent.Tools.{choose_tool}
use srechat.Agent.Chat.{
  Posted, completed, http_error, unavailable, Payload, or_text, or_blank, reply_of, ask_llm,
  ask_payload, answer_of, tool_output_of, is_help, answered, handled,
}

abbrev failing : List ℕ → Bool
failing reply = starts_with (codes "(") reply

or_text-full : (a b : List ℕ) → is_empty b ≡ false → is_empty (or_text a b) ≡ false
or_text-full a b h = ground (arith, h)

rstrip-failing : (reply : List ℕ) → failing reply ≡ true → is_empty (rstrip is_space reply) ≡ false
unfolding starts_with rstrip is_space
rstrip-failing [] h = cc
rstrip-failing (c ∷ reply) h = ground (arith, h)

strip-output :
    (reply xs : List ℕ)
    → failing reply ≡ true
    → strip (b'$' ∷ (xs ++ (codes "\n\n" ++ reply)))
      ≡ b'$' ∷ (xs ++ (codes "\n\n" ++ rstrip is_space reply))
unfolding strip
strip-output reply xs h =
    let kept = rstrip-append is_space (codes "\n\n") reply (rstrip-failing reply h) in
    strip_by-kept is_space b'$' xs (codes "\n\n" ++ reply) (unfold is_space in refl) (rw kept refl)
    ∙ ap (λ (t : List ℕ). b'$' ∷ (xs ++ t)) kept

or_true : (b : Bool) → (b || true) ≡ true
or_true true = refl
or_true false = refl

-- The output of the tool is kept whole, and the failure stands behind it.
answer_of-failing :
    (reply tool arg result : List ℕ)
    → failing reply ≡ true
    → answer_of reply (tool_output_of tool arg result)
      ≡ tool_output_of tool arg result ++ (codes "\n\n" ++ rstrip is_space reply)
unfolding answer_of
answer_of-failing reply tool arg result h =
    let xs = codes " " ++ (tool ++ (codes " " ++ (arg ++ (codes "\n" ++ result)))) in
    let e = strip-output reply xs h in rw (answer_of, h, or_true (is_empty reply), e) refl

answer_of-good :
    (reply output : List ℕ)
    → failing reply ≡ false
    → is_empty reply ≡ false
    → answer_of reply output ≡ reply
unfolding answer_of
answer_of-good reply output h e = ground (arith, h, e)

-- The model gave no answer: no key is set, the gateway failed, or both texts of the message are blank.
abbrev pub no_answer : Bool → Posted → Bool
no_answer false p = true
no_answer true (completed c) =
    is_empty (strip (or_blank c.content)) && is_empty (strip (or_blank c.reasoning_content))
no_answer true (http_error code body) = true
no_answer true (unavailable exc) = true

-- A reply is not empty, and begins with "(" where there is no answer.
abbrev IsReply : Bool → Outcome (List ℕ) → Type 0
IsReply silent (raised exc) = Unit {0}
IsReply silent (returned reply) =
    (is_empty reply ≡ false) × ((silent || failing reply) ≡ failing reply)

or_text-IsReply :
    (a b : List ℕ)
    → IsReply
        (is_empty a && is_empty b)
        (returned (or_text (or_text a b) (codes "(LLM returned an empty response)")))
unfolding starts_with
or_text-IsReply [] [] = (refl, refl)
or_text-IsReply [] (c ∷ b) = (refl, refl)
or_text-IsReply (c ∷ a) b = (refl, refl)

reply_of-IsReply : (p : Posted) → IsReply (no_answer true p) (reply_of p)
unfolding reply_of starts_with
reply_of-IsReply (completed c) =
    or_text-IsReply (strip (or_blank c.content)) (strip (or_blank c.reasoning_content))
reply_of-IsReply (http_error code (returned body)) = (refl, refl)
reply_of-IsReply (http_error code (raised exc)) = tt
reply_of-IsReply (unavailable exc) = (refl, refl)

-- What is sent of a reply and the output of a tool.
abbrev kept : List ℕ → List ℕ → List ℕ
kept reply output =
    if starts_with (codes "(") reply
    then output ++ (codes "\n\n" ++ rstrip is_space reply)
    else reply

answer_of-kept :
    (reply tool arg result : List ℕ)
    → is_empty reply ≡ false
    → answer_of reply (tool_output_of tool arg result) ≡ kept reply (tool_output_of tool arg result)
answer_of-kept reply tool arg result e = elim (Bool-cases (failing reply)) [
  | inl f ↦ answer_of-failing reply tool arg result f ∙ rw f refl
  | inr f ↦ answer_of-good reply (tool_output_of tool arg result) f e ∙ rw f refl
]

module _ {W : Type 0} (actionable full_power has_key : Bool) (cloud : List ℕ) (region : ℕ)
    (model system : List ℕ) (post : Payload (List ℕ × List ℕ) → W → Posted × W)
    (run_tool : List ℕ → List ℕ → W → Outcome (List ℕ) × W) (stamp : W → List ℕ) where
  -- What the gateway gives on the output, and what `ask_llm` makes of it.
  abbrev pub model_posted : List ℕ → List ℕ → W → Posted
  model_posted text output w = (post (ask_payload model system text output) w).0

  abbrev pub model_reply : List ℕ → List ℕ → W → Outcome (List ℕ)
  model_reply text output w = (ask_llm post has_key model system text output w).0

  model_reply-IsReply :
      (text output : List ℕ) (w : W)
      → IsReply (no_answer has_key (model_posted text output w)) (model_reply text output w)
  unfolding ask_llm starts_with
  model_reply-IsReply text output w = elim (Bool-cases has_key) [
    | inl e ↦ rw e (reply_of-IsReply (model_posted text output w))
    | inr e ↦ rw e (refl, refl)
  ]

  answered-kept :
      (tool arg result reply : List ℕ) (entries : List (List ℕ)) (silent : Bool)
      (a : Outcome (List ℕ) × W)
      → IsReply silent a.0
      → a.0 ≡ returned reply
      → (answered actionable full_power has_key cloud region model system post run_tool stamp
          (tool_output_of tool arg result)
          entries
          a).0
        ≡ returned (
            if silent || starts_with (codes "(") reply
            then tool_output_of tool arg result ++ (codes "\n\n" ++ rstrip is_space reply)
            else reply)
  answered-kept tool arg result reply entries silent (raised exc, w) f e = cc
  answered-kept tool arg result reply entries silent (returned said, w) f e =
      let same : said ≡ reply = cc in
      rw⁻¹ same (
        ap (λ a. returned a)
          (answer_of-kept said tool arg result f.0
            ∙ ap
                (λ (b : Bool).
                  if b
                  then tool_output_of tool arg result ++ (codes "\n\n" ++ rstrip is_space said)
                  else said)
                (sym f.1)))

  -- If the text is no call for help, the tool that it chooses returns and `ask_llm` returns a reply, then
  -- `handle` sends that reply; but where the model gave no answer, since no key is set, the gateway failed
  -- or the message was blank, or where the reply begins with "(", it sends the whole output of the
  -- tool with the reply behind it, less the white space at its end.
  pub handled-failing :
      (text result reply : List ℕ) (entries : List (List ℕ)) (w w' : W)
      → is_help (lower (strip text)) ≡ false
      → is_empty (choose_tool actionable full_power text).0 ≡ false
      → run_tool
          (choose_tool actionable full_power text).0
          (choose_tool actionable full_power text).1
          w
        ≡ (returned result, w')
      → model_reply text
          (tool_output_of
            (choose_tool actionable full_power text).0
            (choose_tool actionable full_power text).1
            result)
          w'
        ≡ returned reply
      → let (tool, arg) = choose_tool actionable full_power text in
        let output = tool_output_of tool arg result in
        (handled actionable full_power has_key cloud region model system post run_tool stamp text
          (entries, w)).0
        ≡ returned (
            if no_answer has_key (model_posted text output w') || starts_with (codes "(") reply
            then output ++ (codes "\n\n" ++ rstrip is_space reply)
            else reply)
  unfolding handled
  handled-failing text result reply entries w w' h t r m =
      let (tool, arg) = choose_tool actionable full_power text in
      let output = tool_output_of tool arg result in
      rw (h, t, r)
        (answered-kept tool arg result reply _ (no_answer has_key (model_posted text output w'))
          (ask_llm post has_key model system text output w') (model_reply-IsReply text output w') m)
