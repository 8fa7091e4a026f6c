-- ===== src/Investigate/Conclusion.antt =====
-- agent/investigate.py: `parse_conclusion`, `ensure_fields` and `is_resolved`.
pub mod Lines
pub mod Cause
pub mod Blank
use srechat.Prelude.{
  ℕ, Bool, true, false, ◌&&◌, ◌||◌, Option, none, some, List, [], ◌∷◌, ◌++◌, ◌==◌, if◌then◌else◌,
  is_empty, take, drop, length,
}
use srechat.Text.{codes, lower, lstrip, strip, strip_by, starts_with, splitlines, join, is_space}

-- The five fields of `_FIELD_LINE`.
pub data Field : Type 0 where
  cause evidence action resolved impact : Field

pub record Fields : Type 0 where
  pub cause : List ℕ
  pub evidence : List ℕ
  pub action : List ℕ
  pub resolved : List ℕ
  pub impact : List ℕ

abbrev pub empty_fields : Fields
empty_fields = record { cause = []; evidence = []; action = []; resolved = []; impact = [] }

-- The classes `[\s>*#`_\-]` and `[\s*_`]` of the pattern, and the characters of `strip("*_` ")`.
abbrev pub is_lead : ℕ → Bool
is_lead c = is_space c || c == b'>' || c == b'*' || c == b'#' || c == b'`' || c == b'_' || c == b'-'

abbrev pub is_mark : ℕ → Bool
is_mark c = is_space c || c == b'*' || c == b'_' || c == b'`'

abbrev pub is_quote : ℕ → Bool
is_quote c = c == b'*' || c == b'_' || c == b'`' || c == b' '

-- The word that a line begins with, up to letter case, and what follows it.
unfoldable pub field_word : List ℕ → Option (Field × List ℕ)
field_word s =
    let t = lower s in
    if starts_with (codes "cause") t
    then some (cause, drop 5 s)
    else if starts_with (codes "evidence") t
    then some (evidence, drop 8 s)
    else if starts_with (codes "action") t
    then some (action, drop 6 s)
    else if starts_with (codes "resolved") t
    then some (resolved, drop 8 s)
    else if starts_with (codes "impact") t
    then some (impact, drop 6 s)
    else none

abbrev pub after_colon : List ℕ → Option (List ℕ)
after_colon [] = none
after_colon (c ∷ s) = if c == b':' then some (lstrip is_mark s) else none

abbrev pub field_value : Option (Field × List ℕ) → Option (Field × List ℕ)
field_value none = none
field_value (some (f, s)) = elim (after_colon (lstrip is_mark s)) [
  | none ↦ none
  | some v ↦ some (f, v)
]

-- `_FIELD_LINE.match`: the field, and the second group. No character of a class can begin the word
-- or be the colon, so the greedy match never goes back.
unfoldable pub field_line : List ℕ → Option (Field × List ℕ)
unfolding field_word lstrip is_space
field_line line = field_value (field_word (lstrip is_lead line))

-- `match.group(2).strip().strip("*_` ").strip()`.
unfoldable pub cleaned : List ℕ → List ℕ
cleaned v = strip (strip_by is_quote (strip v))

unfoldable pub set_field : Field → List ℕ → Fields → Fields
set_field cause v fs = record fs { cause = v }
set_field evidence v fs = record fs { evidence = v }
set_field action v fs = record fs { action = v }
set_field resolved v fs = record fs { resolved = v }
set_field impact v fs = record fs { impact = v }

abbrev pub set_line : Option (Field × List ℕ) → Fields → Fields
set_line none fs = fs
set_line (some (f, v)) fs = set_field f (cleaned v) fs

-- The loop over the lines: a later line overwrites an earlier one.
unfoldable pub parse_lines : List (List ℕ) → Fields → Fields
unfolding field_line set_field cleaned
parse_lines [] fs = fs
parse_lines (line ∷ lines) fs = parse_lines lines (set_line (field_line line) fs)

unfoldable pub parse_conclusion : List ℕ → Fields
unfolding parse_lines
parse_conclusion text = parse_lines (splitlines text) empty_fields

-- The tools of the fallback: `', '.join(tools_used) or 'none'`.
abbrev pub tools_text : List (List ℕ) → List ℕ
tools_text tools = let all = join (codes ", ") tools in if is_empty all then codes "none" else all

-- The fallback of `ensure_fields`: what stands on the line of EVIDENCE, and the whole.
unfoldable pub evidence_text : List ℕ → List ℕ → List (List ℕ) → List ℕ
evidence_text note body tools =
    note
    ++ (codes "; the model did not answer in the required format. It said: "
        ++ (take 600 body ++ (codes " (tools: " ++ (tools_text tools ++ codes ")"))))

unfoldable pub fallback : List ℕ → List ℕ
fallback said =
    codes "CAUSE: UNKNOWN\nEVIDENCE: "
    ++ (said ++ codes "\nACTION: NONE\nRESOLVED: no\nIMPACT: unknown")

unfoldable pub ensure_fields : List ℕ → List (List ℕ) → List ℕ → List ℕ
unfolding parse_conclusion evidence_text fallback
ensure_fields text tools note =
    let stated = strip text in
    let body = if is_empty stated then codes "(the model returned nothing)" else stated in
    if is_empty (parse_conclusion stated).cause
    then fallback (evidence_text note body tools)
    else stated

-- `is_resolved`.
unfoldable pub is_resolved : List ℕ → Bool
unfolding parse_conclusion
is_resolved text = starts_with (codes "y") (lower (strip (parse_conclusion text).resolved))
