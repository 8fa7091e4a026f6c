-- ===== src/Investigate/Conclusion/Cause.antt =====
-- agent/investigate.py: the cause of what `ensure_fields` returns.
use srechat.Prelude.{
  ℕ, ◌≡◌, refl, true, false, List, [], ◌∷◌, is_empty, take, ◌⊎◌, inl, inr, Bool-cases,
  if◌then◌else◌,
}
use srechat.Text.{
  codes, IsLine, IsLine-append, IsLine-take, lower, starts_with, is_line_break, strip,
}
use srechat.Investigate.Conclusion.{
  parse_conclusion, fallback, evidence_text, tools_text, ensure_fields, is_resolved,
}
use srechat.Investigate.Conclusion.Lines.{parse-fallback}

-- What the fallback says was said.
abbrev pub body_of : List ℕ → List ℕ
body_of stated = if is_empty stated then codes "(the model returned nothing)" else stated

IsLine-body_of : (s : List ℕ) → IsLine s → IsLine (body_of s)
IsLine-body_of [] h = unfold is_line_break in refl
IsLine-body_of (c ∷ s) h = h

IsLine-evidence_text :
    (note body : List ℕ) (tools : List (List ℕ))
    → IsLine note
    → IsLine body
    → IsLine (tools_text tools)
    → IsLine (evidence_text note body tools)
unfolding evidence_text
IsLine-evidence_text note body tools hn hb ht = IsLine-append note _ hn (
    IsLine-append (codes "; the model did not answer in the required format. It said: ") _
      (unfold is_line_break in refl)
      (IsLine-append (take 600 body) _ (IsLine-take 600 body hb) (
        IsLine-append (codes " (tools: ") _ (unfold is_line_break in refl)
          (IsLine-append (tools_text tools) (codes ")") ht (unfold is_line_break in refl)))))

ensure-stated :
    (text : List ℕ) (tools : List (List ℕ)) (note : List ℕ)
    → is_empty (parse_conclusion (strip text)).cause ≡ false
    → ensure_fields text tools note ≡ strip text
unfolding ensure_fields
ensure-stated text tools note h = rw h refl

pub ensure-fallback :
    (text : List ℕ) (tools : List (List ℕ)) (note : List ℕ)
    → is_empty (parse_conclusion (strip text)).cause ≡ true
    → ensure_fields text tools note ≡ fallback (evidence_text note (body_of (strip text)) tools)
unfolding ensure_fields
ensure-fallback text tools note h = rw h refl

-- What `ensure_fields` returns for an answer of one line, where the note and the names of the tools
-- are on one line too: the stripped answer, which then states a cause; or a text whose cause is
-- `UNKNOWN` and that does not read as resolved.
pub ensure_fields_cause :
    (text : List ℕ) (tools : List (List ℕ)) (note : List ℕ)
    → IsLine (strip text)
    → IsLine note
    → IsLine (tools_text tools)
    → ((is_empty (parse_conclusion (strip text)).cause ≡ false)
        × (ensure_fields text tools note ≡ strip text))
      ⊎ (((parse_conclusion (ensure_fields text tools note)).cause ≡ codes "UNKNOWN")
          × (is_resolved (ensure_fields text tools note) ≡ false))
ensure_fields_cause text tools note hs hn ht =
    elim (Bool-cases (is_empty (parse_conclusion (strip text)).cause)) [
      | inr h ↦ inl (h, ensure-stated text tools note h)
      | inl h ↦
          let said = evidence_text note (body_of (strip text)) tools in
          let p = parse-fallback said (
            IsLine-evidence_text note (body_of (strip text)) tools hn
              (IsLine-body_of (strip text) hs) ht) in
          inr (
            rw (ensure-fallback text tools note h) p.0,
            rw (ensure-fallback text tools note h)
                (unfold is_resolved in rw p.1 (unfold strip lower starts_with in refl)),
          )
    ]
