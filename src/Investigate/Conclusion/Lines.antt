-- ===== src/Investigate/Conclusion/Lines.antt =====
-- agent/investigate.py: the lines of the fallback of `ensure_fields`, and how they parse.
use srechat.Prelude.{ℕ, ◌≡◌, refl, ap, ◌∙◌, some, List, [], ◌∷◌, ◌++◌}
use srechat.Text.{
  codes, splitlines, splitlines-line_feed, IsLine, IsLine-append, lower, starts_with, lstrip,
  is_line_break, strip,
}
use srechat.Investigate.Conclusion.{
  cause, evidence, field_line, set_field, parse_lines, parse_conclusion, fallback, is_mark, cleaned,
}

abbrev pub closing_lines : List (List ℕ)
closing_lines = codes "ACTION: NONE" ∷ codes "RESOLVED: no" ∷ codes "IMPACT: unknown" ∷ []

abbrev pub closing : List ℕ
closing = codes "CTION: NONE\nRESOLVED: no\nIMPACT: unknown"

pub closing_split : splitlines (codes "ACTION: NONE\nRESOLVED: no\nIMPACT: unknown") ≡ closing_lines
unfolding splitlines
closing_split = refl

evidence_split :
    (said : List ℕ)
    → IsLine said
    → splitlines
        (codes "EVIDENCE: " ++ (said ++ codes "\nACTION: NONE\nRESOLVED: no\nIMPACT: unknown"))
      ≡ (codes "EVIDENCE: " ++ said) ∷ closing_lines
evidence_split said h =
    splitlines-line_feed (codes "EVIDENCE: " ++ said) b'A' closing
      (IsLine-append (codes "EVIDENCE: ") said (unfold is_line_break in refl) h)
    ∙ ap (λ (l : List (List ℕ)). (codes "EVIDENCE: " ++ said) ∷ l) closing_split

-- The lines of the fallback where the evidence is one line.
pub splitlines-fallback :
    (said : List ℕ)
    → IsLine said
    → splitlines (fallback said)
      ≡ codes "CAUSE: UNKNOWN" ∷ ((codes "EVIDENCE: " ++ said) ∷ closing_lines)
unfolding fallback
splitlines-fallback said h =
    splitlines-line_feed (codes "CAUSE: UNKNOWN") b'E'
      (codes "VIDENCE: " ++ (said ++ codes "\nACTION: NONE\nRESOLVED: no\nIMPACT: unknown"))
      (unfold is_line_break in refl)
    ∙ ap (λ (l : List (List ℕ)). codes "CAUSE: UNKNOWN" ∷ l) (evidence_split said h)

pub field_line-cause : field_line (codes "CAUSE: UNKNOWN") ≡ some (cause, codes "UNKNOWN")
unfolding field_line lower starts_with
field_line-cause = refl

pub field_line-evidence :
    (said : List ℕ) → field_line (codes "EVIDENCE: " ++ said) ≡ some (evidence, lstrip is_mark said)
unfolding field_line lower starts_with
field_line-evidence said = refl

-- The fallback parses to an unknown cause that is not resolved.
pub parse-fallback :
    (said : List ℕ)
    → IsLine said
    → ((parse_conclusion (fallback said)).cause ≡ codes "UNKNOWN")
      × ((parse_conclusion (fallback said)).resolved ≡ codes "no")
unfolding parse_conclusion
parse-fallback said h = rw (splitlines-fallback said h) (
    unfold parse_lines set_field cleaned strip in
    rw (field_line-cause, field_line-evidence said)
      (unfold field_line lower starts_with in (refl, refl)))
