-- ===== src/Closure/Handoff.antt =====
-- From an evaluation to the suggested action: `ClosureEvaluator`, `ClosureFeedbackGenerator` and
-- `ClosureFeedbackDispatcher` of apps/api/app/domain, one after another.
use deep_research_agent.Common.{
  ℕ, ◌≡◌, refl, false, Option, List, [], ◌∷◌, arith, String, string_eq, contains, ok,
}
use deep_research_agent.Common.Floats.{Floats}
use deep_research_agent.Common.Text.{is_blank}
use deep_research_agent.Common.Uuids.{Uuids}
use deep_research_agent.Common.Checks.{run_checks}
use deep_research_agent.Closure.Data.{GapClosureStatus, is_closed, GapRequirement}
use deep_research_agent.Closure.Evaluation.{or_time}
use deep_research_agent.Closure.Alignment.{ClosureEvaluationContext, EvidenceAlignment}
use deep_research_agent.Closure.Evaluator.{
  ClosureEvaluationExecution, evaluate_closure, remaining_requirements_of,
}
use deep_research_agent.Closure.Evaluator.Laws.{IsValid}
use deep_research_agent.Closure.Evaluator.Outcomes.{
  remaining_shown, closure_never_moves_back, events_show_transition,
}
use deep_research_agent.Closure.Feedback.{
  ClosureFeedback, ClosureFeedbackReason, missing_independent_source, claim_not_verified,
  insufficient_evidence, evidence_quality_low, dimension_mismatch, no_valid_path, unexplained,
  missing_requirement_of, first_or, feedback_of, feedback_reason, check_feedback, generate_feedback,
}
use deep_research_agent.Closure.Dispatcher.{FeedbackDispatchResult, created, dispatch}
use deep_research_agent.Closure.Dispatcher.Laws.{dispatch_total}

named_missing :
    (reason : ClosureFeedbackReason) (remaining : List String) (key : String)
    → is_blank (first_or remaining key) ≡ false
    → is_blank (missing_requirement_of reason remaining key) ≡ false
unfolding is_blank
named_missing missing_independent_source remaining key h = refl
named_missing claim_not_verified remaining key h = refl
named_missing insufficient_evidence remaining key h = h
named_missing evidence_quality_low remaining key h = h
named_missing dimension_mismatch remaining key h = h
named_missing no_valid_path remaining key h = h
named_missing unexplained remaining key h = h

constants_named : (is_blank "independent_source" ≡ false) × (is_blank "claim_verification" ≡ false)
unfolding is_blank
constants_named = (refl, refl)

module _ (fl : Floats) where
  open fl use {F}

  remaining_named :
      (c : ClosureEvaluationContext F) (r : GapRequirement F) (s : GapClosureStatus) (key : String)
      → is_blank r.dimension_key ≡ false
      → is_blank key ≡ false
      → is_blank (first_or (remaining_requirements_of r c s) key) ≡ false
  unfolding remaining_requirements_of
  remaining_named c r s key h k = ground (arith, h, k, constants_named.0, constants_named.1)

  -- An evaluation that leaves a named gap without closing it gives one feedback, which is about the gap and shows
  -- its statuses.  Unless the id of the feedback was dispatched before, its dispatch on the requirement
  -- after the evaluation creates a need.
  pub open_gap_is_followed_up :
      (ids : Uuids) (c : ClosureEvaluationContext F) (r : GapRequirement F) (now : Option ℕ)
      (clock evaluation_id uuid : ℕ) (x : ClosureEvaluationExecution F)
      → IsValid fl c r
      → is_blank r.dimension_key ≡ false
      → evaluate_closure fl c r now clock evaluation_id uuid ≡ ok x
      → is_closed x.requirement.closure_status ≡ false
      → (f : ClosureFeedback F) × (generate_feedback ids x now clock ≡ ok (f ∷ []))
        × (f.gap_id ≡ r.gap_id)
        × (f.previous_status ≡ r.closure_status)
        × (f.current_status ≡ x.requirement.closure_status)
        × ((already : List String) (alignments : List EvidenceAlignment)
            → contains (ids.show f.feedback_id) already ≡ false
            → (d : FeedbackDispatchResult) × (dispatch ids already now clock f x.requirement
                  alignments
                ≡ ok d)
              × (d.dispatch_status ≡ created))
  unfolding generate_feedback check_feedback run_checks feedback_of
  open_gap_is_followed_up ids c r now clock evaluation_id uuid x valid named run left =
      let kept = closure_never_moves_back fl c r now clock evaluation_id uuid x valid run in
      let shown = events_show_transition fl c r now clock evaluation_id uuid x valid run in
      let f = feedback_of ids x (or_time now clock) in
      let rest =
        remaining_named c r x.requirement.closure_status x.requirement.dimension_key named
          (rw kept.5 named) in
      let missing =
        named_missing (feedback_reason x.result.transition_reason x.result)
          x.result.remaining_requirements x.requirement.dimension_key
          (rw (remaining_shown fl c r now clock evaluation_id uuid x valid run) rest) in
      (
        f,
        simp (shown.3, left, missing) refl,
        kept.2,
        shown.2,
        shown.3,
        λ already alignments fresh.
            let (d, sent, creates, traced) =
              dispatch_total ids now clock already f x.requirement alignments in
            (d, sent, creates.1 (left, refl, fresh)),
      )
