-- ===== src/Investigate/Conclusion/Blank.antt =====
-- agent/investigate.py: `ensure_fields` where the model's answer has a `CAUSE:` line with nothing on it.
use srechat.Prelude.{
  ℕ, ◌≡◌, refl, ap, ◌∙◌, List, [], ◌∷◌, ◌++◌, arith, take, length, ◌≤◌, suc, zero,
}
use srechat.Text.{
  codes, splitlines, splitlines-line_feed, splitlines-IsLine, IsLine, IsLine-append, lower,
  starts_with, is_line_break, strip,
}
use mathlib.Core.List.{append_assoc}
use srechat.Investigate.Conclusion.{
  Fields, empty_fields, field_line, set_field, parse_lines, parse_conclusion, fallback, cleaned,
  evidence_text, tools_text, ensure_fields,
}
use srechat.Investigate.Conclusion.Cause.{body_of, ensure-fallback}
use srechat.Investigate.Conclusion.Lines.{closing, closing_lines, closing_split}

-- An answer that goes on after a line `CAUSE:` with an action.
abbrev pub blank_cause : List ℕ → List ℕ
blank_cause action = codes "\nCAUSE:\nACTION: " ++ action

take_all : (n : ℕ) (x : List ℕ) → length x ≤ n → take n x ≡ x
take_all zero [] h = refl
take_all (suc n) [] h = refl
take_all zero (c ∷ x) h = ground arith
take_all (suc n) (c ∷ x) h = ap (λ (t : List ℕ). c ∷ t) (take_all n x (omega arith))

regroup :
    (x y a t z w : List ℕ) → (x ++ (y ++ ((a ++ t) ++ z))) ++ w ≡ ((x ++ y) ++ a) ++ (t ++ (z ++ w))
regroup x y a t z w = simp append_assoc

-- The text of the fallback from the blank line on, without its first letter.
abbrev blank_rest : List ℕ → List ℕ → List ℕ
blank_rest action tools =
    codes "AUSE:\nACTION: "
    ++ (action
        ++ (codes " (tools: " ++ (tools ++ codes ")\nACTION: NONE\nRESOLVED: no\nIMPACT: unknown")))

abbrev it_said : List ℕ
it_said = codes "; the model did not answer in the required format. It said: "

abbrev closing_text : List ℕ
closing_text = codes "\nACTION: NONE\nRESOLVED: no\nIMPACT: unknown"

abbrev said_blank : List ℕ → List ℕ → List ℕ → List ℕ → List ℕ
said_blank a action note tools =
    note ++ (it_said ++ ((a ++ blank_cause action) ++ (codes " (tools: " ++ (tools ++ codes ")"))))

abbrev action_line : List ℕ → List ℕ → List ℕ
action_line action tools =
    codes "ACTION: " ++ (action ++ (codes " (tools: " ++ (tools ++ codes ")")))

IsLine-action_line :
    (action tools : List ℕ) → IsLine action → IsLine tools → IsLine (action_line action tools)
IsLine-action_line action tools k h =
    IsLine-append (codes "ACTION: ") (action ++ (codes " (tools: " ++ (tools ++ codes ")")))
      (unfold is_line_break in refl)
      (IsLine-append action (codes " (tools: " ++ (tools ++ codes ")")) k (
        IsLine-append (codes " (tools: ") (tools ++ codes ")") (unfold is_line_break in refl)
          (IsLine-append tools (codes ")") h (unfold is_line_break in refl))))

splitlines-blank_rest :
    (action tools : List ℕ)
    → IsLine action
    → IsLine tools
    → splitlines (b'C' ∷ blank_rest action tools)
      ≡ codes "CAUSE:" ∷ (action_line action tools ∷ closing_lines)
splitlines-blank_rest action tools k h =
    splitlines-line_feed (codes "CAUSE:") b'A' _ (unfold is_line_break in refl)
    ∙ ap (λ (l : List (List ℕ)). codes "CAUSE:" ∷ l)
        (ap splitlines (regroup_action action tools)
          ∙ splitlines-line_feed (action_line action tools) b'A' closing
              (IsLine-action_line action tools k h)
          ∙ ap (λ (l : List (List ℕ)). action_line action tools ∷ l) closing_split)
  where
    regroup_action :
        (action tools : List ℕ)
        → codes "ACTION: "
            ++ (action
                ++ (codes " (tools: "
                    ++ (tools ++ codes ")\nACTION: NONE\nRESOLVED: no\nIMPACT: unknown")))
          ≡ action_line action tools ++ codes "\nACTION: NONE\nRESOLVED: no\nIMPACT: unknown"
    regroup_action action tools = simp append_assoc

-- Whatever the lines before set, a blank `CAUSE:` line leaves no cause.
parse-blank_rest :
    (action tools : List ℕ) (fs : Fields)
    → (parse_lines (codes "CAUSE:" ∷ (action_line action tools ∷ closing_lines)) fs).cause ≡ []
unfolding parse_lines set_field cleaned field_line strip lower starts_with
parse-blank_rest action tools fs = refl

splitlines-blank_cause :
    (a action : List ℕ)
    → IsLine a
    → IsLine action
    → splitlines (a ++ blank_cause action)
      ≡ a ∷ (codes "CAUSE:" ∷ ((codes "ACTION: " ++ action) ∷ []))
splitlines-blank_cause a action h k =
    splitlines-line_feed a b'C' (codes "AUSE:\nACTION: " ++ action) h
    ∙ ap (λ (l : List (List ℕ)). a ∷ l)
        (splitlines-line_feed (codes "CAUSE:") b'A' (codes "CTION: " ++ action)
            (unfold is_line_break in refl)
          ∙ ap (λ (l : List (List ℕ)). codes "CAUSE:" ∷ l)
              (splitlines-IsLine b'A' (codes "CTION: " ++ action)
                (IsLine-append (codes "ACTION: ") action (unfold is_line_break in refl) k)))

parse-blank_cause :
    (a action : List ℕ)
    → IsLine a
    → IsLine action
    → (parse_conclusion (a ++ blank_cause action)).cause ≡ []
unfolding parse_conclusion
parse-blank_cause a action h k =
    rw (splitlines-blank_cause a action h k)
      (unfold parse_lines set_field cleaned field_line strip lower starts_with in refl)

-- The evidence line and the blank line after it.
lines_of_fallback :
    (a action note tools : List ℕ)
    → IsLine a
    → IsLine action
    → IsLine note
    → IsLine tools
    → splitlines (fallback (said_blank a action note tools))
      ≡ codes "CAUSE: UNKNOWN"
        ∷ ((codes "EVIDENCE: " ++ ((note ++ it_said) ++ a))
            ∷ (codes "CAUSE:" ∷ (action_line action tools ∷ closing_lines)))
unfolding fallback
lines_of_fallback a action note tools ha hk hn ht =
    let line = codes "EVIDENCE: " ++ ((note ++ it_said) ++ a) in
    let e : IsLine line =
      IsLine-append (codes "EVIDENCE: ") ((note ++ it_said) ++ a) (unfold is_line_break in refl) (
        IsLine-append (note ++ it_said) a
          (IsLine-append note it_said hn (unfold is_line_break in refl)) ha) in
    splitlines-line_feed (codes "CAUSE: UNKNOWN") b'E' _ (unfold is_line_break in refl)
    ∙ ap (λ (t : List ℕ). codes "CAUSE: UNKNOWN" ∷ splitlines (codes "EVIDENCE: " ++ t))
        (regroup note it_said a (blank_cause action) (codes " (tools: " ++ (tools ++ codes ")"))
          closing_text)
    ∙ ap (λ (l : List (List ℕ)). codes "CAUSE: UNKNOWN" ∷ l)
        (ap splitlines (regroup_line ((note ++ it_said) ++ a) action tools)
          ∙ splitlines-line_feed line b'C' (blank_rest action tools) e
          ∙ ap (λ (l : List (List ℕ)). line ∷ l) (splitlines-blank_rest action tools hk ht))
  where
    regroup_line :
        (m action tools : List ℕ)
        → codes "EVIDENCE: "
            ++ (m
                ++ (blank_cause action
                    ++ ((codes " (tools: " ++ (tools ++ codes ")")) ++ closing_text)))
          ≡ (codes "EVIDENCE: " ++ m) ++ (10 ∷ (b'C' ∷ blank_rest action tools))
    regroup_line m action tools = simp append_assoc

body_of-blank : (a action : List ℕ) → body_of (a ++ blank_cause action) ≡ a ++ blank_cause action
body_of-blank [] action = refl
body_of-blank (c ∷ a) action = refl

evidence-blank :
    (a action : List ℕ) (tools : List (List ℕ)) (note : List ℕ)
    → strip (a ++ blank_cause action) ≡ a ++ blank_cause action
    → length (a ++ blank_cause action) ≤ 600
    → evidence_text note (body_of (strip (a ++ blank_cause action))) tools
      ≡ said_blank a action note (tools_text tools)
unfolding evidence_text
evidence-blank a action tools note hs hl =
    ap
      (λ (b : List ℕ).
        note
        ++ (it_said
            ++ (take 600 (body_of b) ++ (codes " (tools: " ++ (tools_text tools ++ codes ")")))))
      hs
    ∙ ap
        (λ (b : List ℕ).
          note ++ (it_said ++ (b ++ (codes " (tools: " ++ (tools_text tools ++ codes ")")))))
        (ap (λ (b : List ℕ). take 600 b) (body_of-blank a action)
          ∙ take_all 600 (a ++ blank_cause action) hl)

parse-blank_lines :
    (line action tools : List ℕ)
    → (parse_lines
        (codes "CAUSE: UNKNOWN"
          ∷ (line ∷ (codes "CAUSE:" ∷ (action_line action tools ∷ closing_lines))))
        empty_fields).cause
      ≡ []
unfolding parse_lines
parse-blank_lines line action tools = parse-blank_rest action tools _

-- An answer of a first line, a line `CAUSE:` with nothing on it and a line with any action, where the
-- answer has nothing to strip and at most 600 characters and the note and the tools are on one line:
-- `ensure_fields` returns a conclusion whose cause is empty.
pub ensure_fields_blank :
    (a action : List ℕ) (tools : List (List ℕ)) (note : List ℕ)
    → IsLine a
    → IsLine action
    → IsLine note
    → IsLine (tools_text tools)
    → strip (a ++ blank_cause action) ≡ a ++ blank_cause action
    → length (a ++ blank_cause action) ≤ 600
    → (parse_conclusion (ensure_fields (a ++ blank_cause action) tools note)).cause ≡ []
ensure_fields_blank a action tools note ha hk hn ht hs hl =
    rw
      (
        ensure-fallback (a ++ blank_cause action) tools note
            (rw hs (rw (parse-blank_cause a action ha hk) refl)),
        evidence-blank a action tools note hs hl,
      )
      (unfold parse_conclusion in
        rw (lines_of_fallback a action note (tools_text tools) ha hk hn ht) (
          parse-blank_lines (codes "EVIDENCE: " ++ ((note ++ it_said) ++ a)) action
            (tools_text tools)))
