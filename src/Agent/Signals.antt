-- ===== src/Agent/Signals.antt =====
-- agent/sre_agent.py: `signal_fingerprint`, `signal_is_duplicate`, `sweep_findings` and what a repair is.
-- `sha256_hex` is the digest of the library. Times are whole seconds and `cooldown` is
-- `SIGNAL_COOLDOWN_SECONDS`; `_signal_seen` is the state that is passed on.
pub mod Quiet
use srechat.Prelude.{
  ℕ, ◌+◌, Bool, true, false, not, ◌&&◌, ◌||◌, Option, none, some, List, [], ◌∷◌, ◌++◌, leb, ◌==◌,
  if◌then◌else◌, keep, take, any, is_empty, Outcome, returned, raised, within,
}
use srechat.Text.{codes, strip, lower, contains, starts_with, lstrip}
use srechat.Dict
use srechat.Dict.{Dict}
use srechat.Investigate.{Step}
use srechat.Agent.Tools.{is_in, mutating_tools}
use srechat.Agent.Tools.Words.{is_digit}

-- `re.sub(r"\d+", "#", text)`: each run of digits is one `#`.
unfoldable pub without_digits : Bool → List ℕ → List ℕ
without_digits in_run [] = []
without_digits in_run (c ∷ s) =
    let after_digit = without_digits true s in
    let after_other = without_digits false s in
    if is_digit c then (if in_run then after_digit else b'#' ∷ after_digit) else c ∷ after_other

-- What is not older than the cooldown.
unfoldable pub still_seen : ℕ → ℕ → Dict ℕ → Dict ℕ
still_seen cooldown now seen = record {
  items = keep (λ (item : List ℕ × ℕ). leb now (item.1 + cooldown)) seen.items;
}

-- Whether a time that was noted is inside the cooldown.
abbrev pub is_recent : ℕ → ℕ → Option ℕ → Bool
is_recent cooldown now none = false
is_recent cooldown now (some at) = within now at cooldown

module _ (sha256_hex : List ℕ → List ℕ) where
  unfoldable pub signal_fingerprint : List ℕ → List ℕ
  unfolding without_digits
  signal_fingerprint text = take 16 (sha256_hex (without_digits false text))

  -- `signal_is_duplicate`: the answer, and what is seen after it.
  unfoldable pub signal_is_duplicate : ℕ → List ℕ → ℕ → Dict ℕ → Bool × Dict ℕ
  unfolding signal_fingerprint still_seen
  signal_is_duplicate cooldown text now seen =
      let fingerprint = signal_fingerprint text in
      let seen' = Dict.put seen fingerprint now in
      if is_recent cooldown now (Dict.get seen fingerprint)
      then (true, seen')
      else (false, still_seen cooldown now seen')

abbrev pub quiet_words : List (List ℕ)
quiet_words = codes "(no output)" ∷ codes "no errors" ∷ codes "none found" ∷ codes "nothing" ∷ []

abbrev pub source_unavailable_words : List (List ℕ)
source_unavailable_words =
    codes "not configured"
    ∷ codes "a password is required"
    ∷ codes "permission denied"
    ∷ codes "command not found"
    ∷ codes "credentials"
    ∷ codes "could not find default credentials"
    ∷ codes "unauthorized"
    ∷ codes "query failed"
    ∷ codes "http error 401"
    ∷ codes "http error 403"
    ∷ codes "forbidden"
    ∷ []

abbrev pub says_any : List (List ℕ) → List ℕ → Bool
says_any words text = any (λ word. contains word text) words

-- What one source of `SWEEP_SOURCES` answered, and whether that is a finding.
unfoldable pub is_finding : Outcome (List ℕ) → Bool
is_finding (raised exc) = false
is_finding (returned answer) =
    let out = strip answer in
    let low = lower out in
    not (is_empty out || says_any quiet_words low) && not (says_any source_unavailable_words low)

abbrev pub add_finding : List ℕ → Outcome (List ℕ) → List (List ℕ × List ℕ) → List (List ℕ × List ℕ)
add_finding label (raised exc) rest = rest
add_finding label (returned answer) rest =
    if is_finding (returned answer) then (label, strip answer) ∷ rest else rest

-- `sweep_findings` on the sources that this region has a tool for, each with its label.
unfoldable pub sweep_findings : List (List ℕ × Outcome (List ℕ)) → List (List ℕ × List ℕ)
unfolding is_finding
sweep_findings [] = []
sweep_findings ((label, answer) ∷ sources) = add_finding label answer (sweep_findings sources)

abbrev pub noop_prefixes : List (List ℕ)
noop_prefixes = codes "refused:" ∷ codes "not allowed:" ∷ codes "no action:" ∷ []

abbrev pub no_action_prefixes : List (List ℕ)
no_action_prefixes =
    codes "none"
    ∷ codes "no action"
    ∷ codes "no repair"
    ∷ codes "no change"
    ∷ codes "nothing"
    ∷ codes "n/a"
    ∷ codes "na "
    ∷ codes "no "
    ∷ codes "did not"
    ∷ codes "didn't"
    ∷ []

abbrev pub starts_with_any : List (List ℕ) → List ℕ → Bool
starts_with_any prefixes text = any (λ prefix. starts_with prefix text) prefixes

-- The characters of `lstrip("*_-: ")`.
abbrev pub is_decoration : ℕ → Bool
is_decoration c = c == b'*' || c == b'_' || c == b'-' || c == b':' || c == b' '

-- `_took_action`.
unfoldable pub took_action : List ℕ → Bool
took_action action =
    let text = lstrip is_decoration (lower (strip action)) in
    not (is_empty text) && not (starts_with_any no_action_prefixes text)

-- `_changed_state`.
unfoldable pub changed_state : List Step → Bool
unfolding is_in
changed_state [] = false
changed_state (s ∷ steps) =
    (is_in s.tool mutating_tools && not (starts_with_any noop_prefixes (lower (strip s.output))))
    || changed_state steps
