-- ===== src/Agent/Reports.antt =====
-- agent/sre_agent.py: `triage_signal` and what `sweep_cloud_errors` makes of a finding. `investigate_signal`
-- is the investigation of a signal with the reading tools; the effects are the chat note and the
-- e-mail, whose exceptions are swallowed.
pub mod Missing
use srechat.Prelude.{
  ℕ, Bool, true, false, not, ◌&&◌, ◌||◌, Option, none, some, List, [], ◌∷◌, ◌++◌, if◌then◌else◌,
  is_empty, length,
}
use srechat.Text.{codes, strip, upper, lower, starts_with, join, show}
use srechat.Dict.{Dict}
use srechat.Investigate.{Investigation, tools_used}
use srechat.Investigate.Conclusion.{Fields, parse_conclusion, is_resolved}
use srechat.Agent.Signals.{signal_is_duplicate, changed_state, took_action}

abbrev pub or_text : List ℕ → List ℕ → List ℕ
or_text default text = if is_empty text then default else text

-- `fields["cause"] or "UNKNOWN"`, and whether it is known.
unfoldable pub cause_of : Investigation → List ℕ
cause_of finding = or_text (codes "UNKNOWN") (parse_conclusion finding.conclusion).cause

unfoldable pub is_known : List ℕ → Bool
is_known cause = not (starts_with (codes "UNKNOWN") (upper (strip cause)))

-- Real and ongoing is the only combination worth an e-mail.
unfoldable pub is_real : Investigation → Bool
unfolding cause_of is_known
is_real finding = is_known (cause_of finding) && not (is_resolved finding.conclusion)

abbrev pub checked_line : Investigation → List ℕ
checked_line finding =
    codes "Checked "
    ++ (show (length finding.steps)
        ++ (codes " thing(s): "
            ++ or_text (codes "nothing") (join (codes ", ") (tools_used finding.steps))))

abbrev pub triage_note : Investigation → List ℕ
triage_note finding = join (codes "\n") (
    ((if is_real finding then codes "⚠" ++ 0xfe0f ∷ [] else codes "🔍")
      ++ (codes " signal triage: " ++ cause_of finding))
    ∷ checked_line finding
    ∷ (if is_real finding
        then codes "Looks real — full report emailed."
        else codes "Nothing broken that I can measure. No page sent.")
    ∷ [])

-- The chat note, and the finding that is e-mailed.
pub record Triage (W : Type 0) : Type 0 where
  pub note : Option (List ℕ)
  pub report : Option Investigation
  pub seen : Dict ℕ
  pub world : W

module _ {W : Type 0} (sha256_hex : List ℕ → List ℕ)
    (investigate_signal : List ℕ → W → Investigation × W) where
  abbrev pub triaged : Dict ℕ → Investigation × W → Triage W
  triaged seen (finding, w) = record {
    note = some (triage_note finding);
    report = if is_real finding then some finding else none;
    seen = seen;
    world = w;
  }

  -- `triage_signal`, where `has_tools` says that this region has reading tools.
  unfoldable pub triage_signal : ℕ → Bool → List ℕ → ℕ → Dict ℕ → W → Triage W
  unfolding is_real
  triage_signal cooldown has_tools text now seen w =
      let (duplicate, seen') = signal_is_duplicate sha256_hex cooldown text now seen in
      if duplicate || not has_tools
      then record { note = none; report = none; seen = seen'; world = w }
      else triaged seen' (investigate_signal text w)

-- What `sweep_cloud_errors` decides about a finding: it acted, or the model calls it live.
unfoldable pub has_acted : Investigation → Bool
has_acted finding =
    changed_state finding.steps && took_action (parse_conclusion finding.conclusion).action

unfoldable pub is_live : Investigation → Bool
is_live finding =
    let impact = lower (strip (parse_conclusion finding.conclusion).impact) in
    starts_with (codes "outage") impact || starts_with (codes "degraded") impact

-- The key under which a sweep reports to the ledger, if it does; a repair is its own event.
unfoldable pub sweep_report_key : ℕ → List ℕ → ℕ → Investigation → Option (List ℕ)
unfolding has_acted is_live
sweep_report_key region label now finding =
    let key = codes "sweep:" ++ (show region ++ (codes ":" ++ label)) in
    if has_acted finding
    then some (key ++ (codes ":" ++ show now))
    else if is_live finding
    then some key
    else none
