-- ===== src/Agent/Repair/Waits.antt =====
-- agent/sre_agent.py: the report, the ledger and the wait for a reply agree on whether the region is fixed.
use srechat.Prelude.{
  ℕ, ◌≡◌, refl, ap, ◌∙◌, Bool, true, false, List, [], ◌∷◌, ◌++◌, if◌then◌else◌, returned,
}
use srechat.Text.{codes, show, starts_with, strip, lower, join}
use srechat.Investigate.{Investigation}
use srechat.Investigate.Conclusion.{parse_conclusion, is_resolved}
use srechat.Agent.Repair.{
  Region, Work, chat_work, opened_work, investigate_work, outcome_work, page_work, await_work,
  self_key, report_headline, incident_report, await_summary, work_on,
}

-- What the ledger is told: the key, whether the report says in its subject that it is fixed, and the flag.
abbrev pub told_outcomes : List Work → List (List ℕ × (Bool × Bool))
told_outcomes [] = []
told_outcomes (outcome_work key mail fixed ∷ works) =
    (key, (starts_with (codes "✅") mail, fixed)) ∷ told_outcomes works
told_outcomes (chat_work text ∷ works) = told_outcomes works
told_outcomes (opened_work key mail ∷ works) = told_outcomes works
told_outcomes (investigate_work prompt ∷ works) = told_outcomes works
told_outcomes (page_work text ∷ works) = told_outcomes works
told_outcomes (await_work key summary ∷ works) = told_outcomes works

-- The incidents that wait for a reply.
abbrev pub awaited : List Work → List (List ℕ)
awaited [] = []
awaited (await_work key summary ∷ works) = key ∷ awaited works
awaited (outcome_work key mail fixed ∷ works) = awaited works
awaited (chat_work text ∷ works) = awaited works
awaited (opened_work key mail ∷ works) = awaited works
awaited (investigate_work prompt ∷ works) = awaited works
awaited (page_work text ∷ works) = awaited works

awaited-if :
    (fixed : Bool) (key summary : List ℕ)
    → awaited (if fixed then [] else await_work key summary ∷ []) ≡ (if fixed then [] else key ∷ [])
awaited-if true key summary = refl
awaited-if false key summary = refl

told_outcomes-if :
    (fixed : Bool) (key summary : List ℕ)
    → told_outcomes (if fixed then [] else await_work key summary ∷ []) ≡ []
told_outcomes-if true key summary = refl
told_outcomes-if false key summary = refl

module _ (own : Region) (regions : List Region) (uid stamp : List ℕ) where
  starts_with-headline :
      (fixed : Bool) (cause rest : List ℕ)
      → starts_with (codes "✅") (report_headline own regions uid stamp fixed cause ++ rest) ≡ fixed
  unfolding starts_with
  starts_with-headline true cause rest = refl
  starts_with-headline false cause rest = refl

  starts_with-report :
      (finding : Investigation)
      → starts_with (codes "✅") (incident_report own regions uid stamp finding)
        ≡ is_resolved finding.conclusion
  unfolding incident_report is_resolved join
  starts_with-report finding =
      let fields = parse_conclusion finding.conclusion in
      starts_with-headline (starts_with (codes "y") (lower (strip fields.resolved))) fields.cause _

  -- When the investigation and the page return, the ledger is told one outcome, of this region, whose flag
  -- and whose report both say fixed exactly if the conclusion is resolved; and the region waits for a reply
  -- exactly if it is not.
  pub work_on-agrees :
      (tools : List (List ℕ)) (trigger : List ℕ) (finding : Investigation) (page : List ℕ)
      → let works =
          work_on own regions uid stamp tools trigger (returned finding) (returned page) in
        let fixed = is_resolved finding.conclusion in
        (told_outcomes works ≡ (codes "self:" ++ show own.index, (fixed, fixed)) ∷ [])
        × (awaited works ≡ (if fixed then [] else (codes "region-" ++ show own.index) ∷ []))
  unfolding work_on
  work_on-agrees tools trigger finding page =
      let fixed = is_resolved finding.conclusion in
      let key = codes "region-" ++ show own.index in
      let summary = await_summary own regions uid stamp (parse_conclusion finding.conclusion) in
      let waiting : List Work = if fixed then [] else await_work key summary ∷ [] in
      (
        ap (λ (b : Bool). (self_key own regions uid stamp, (b, fixed)) ∷ told_outcomes waiting)
              (starts_with-report finding)
            ∙ ap
                (λ (t : List (List ℕ × (Bool × Bool))).
                  (self_key own regions uid stamp, (fixed, fixed)) ∷ t)
                (told_outcomes-if fixed key summary),
        awaited-if fixed key summary,
      )
