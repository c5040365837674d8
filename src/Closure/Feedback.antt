-- ===== src/Closure/Feedback.antt =====
-- apps/api/app/domain/closure_feedback.py: the feedback that explains why a gap is not closed.
-- `UNKNOWN` is `unexplained`, since `unknown` is a status of an alignment.
use deep_research_agent.Common.{
  ℕ, ◌&&◌, Option, List, [], ◌∷◌, String, string_eq, ◌==◌, nat_eqb, if◌then◌else◌, Result, ok,
  ◌>>=◌,
}
use deep_research_agent.Common.Text.{is_blank, show_count}
use deep_research_agent.Common.Uuids.{Uuids}
use deep_research_agent.Common.Values.{Fields, end}
use deep_research_agent.Common.Checks.{run_checks}
use Prim.Native.String.{◌++◌ as ◌<>◌}
use deep_research_agent.Closure.Data.{
  GapRequirementType, dimension_coverage, independent_source, claim_verification, evidence_quality,
  GapClosureStatus, is_closed, ClosureError, empty_missing_requirement,
}
use deep_research_agent.Closure.Evaluation.{or_time}
use deep_research_agent.Closure.Evaluator.{ClosureEvaluationResult, ClosureEvaluationExecution}

pub data ClosureFeedbackReason : Type 0 where
  missing_independent_source claim_not_verified insufficient_evidence : ClosureFeedbackReason
  evidence_quality_low dimension_mismatch no_valid_path unexplained : ClosureFeedbackReason

-- `ResearchNeedType` of apps/api/app/domain/research_need.py
pub data ResearchNeedType : Type 0 where
  need_additional_source need_independent_source need_claim_verification : ResearchNeedType
  need_evidence_quality need_missing_data need_dimension_coverage need_unknown : ResearchNeedType

abbrev pub reason_value : ClosureFeedbackReason → String
reason_value missing_independent_source = "missing_independent_source"
reason_value claim_not_verified = "claim_not_verified"
reason_value insufficient_evidence = "insufficient_evidence"
reason_value evidence_quality_low = "evidence_quality_low"
reason_value dimension_mismatch = "dimension_mismatch"
reason_value no_valid_path = "no_valid_path"
reason_value unexplained = "unknown"

abbrev pub requirement_type_value : GapRequirementType → String
requirement_type_value dimension_coverage = "dimension_coverage"
requirement_type_value independent_source = "independent_source"
requirement_type_value claim_verification = "claim_verification"
requirement_type_value evidence_quality = "evidence_quality"

pub record ClosureFeedback (F : Type 0) : Type 0 where
  pub feedback_id : ℕ
  pub run_id : ℕ
  pub question_id : String
  pub gap_id : ℕ
  pub dimension_key : String
  pub requirement_type : String
  pub previous_status : GapClosureStatus
  pub current_status : GapClosureStatus
  pub closure_result : GapClosureStatus
  pub failure_reason : ClosureFeedbackReason
  pub missing_requirement : String
  pub recommended_need_type : ResearchNeedType
  pub created_at : ℕ
  pub metadata : Fields F

-- `ClosureFeedback.__post_init__`
unfoldable pub check_feedback :
    {F : Type 0} → ClosureFeedback F → Result ClosureError (ClosureFeedback F)
check_feedback f = run_checks ((is_blank f.missing_requirement, empty_missing_requirement) ∷ []) f

-- `need_type_for_reason`, the table `_REASON_TO_NEED_TYPE`
abbrev pub need_type_for_reason : ClosureFeedbackReason → ResearchNeedType
need_type_for_reason missing_independent_source = need_independent_source
need_type_for_reason claim_not_verified = need_claim_verification
need_type_for_reason insufficient_evidence = need_evidence_quality
need_type_for_reason evidence_quality_low = need_evidence_quality
need_type_for_reason dimension_mismatch = need_dimension_coverage
need_type_for_reason no_valid_path = need_additional_source
need_type_for_reason unexplained = need_unknown

-- `_feedback_reason`
unfoldable pub feedback_reason : String → ClosureEvaluationResult → ClosureFeedbackReason
feedback_reason transition_reason result =
    if transition_reason == "missing_independent_source"
    then missing_independent_source
    else if transition_reason == "claim_verification_required"
    then claim_not_verified
    else if transition_reason == "dimension_mismatch"
    then dimension_mismatch
    else if transition_reason == "insufficient_evidence"
    then insufficient_evidence
    else if transition_reason == "requirement_not_satisfied"
    then if nat_eqb result.aligned_evidence_count 0 && nat_eqb result.partial_evidence_count 0
      then no_valid_path
      else insufficient_evidence
    else if transition_reason == "evidence_or_verification_progress_without_closure"
    then insufficient_evidence
    else unexplained

-- the first of the remaining requirements, or the key of the dimension
abbrev pub first_or : List String → String → String
first_or [] key = key
first_or (x ∷ xs) key = x

-- `_missing_requirement`
abbrev pub missing_requirement_of :
    ClosureFeedbackReason → (remaining : List String) → (dimension_key : String) → String
missing_requirement_of missing_independent_source remaining key = "independent_source"
missing_requirement_of claim_not_verified remaining key = "claim_verification"
missing_requirement_of _ remaining key = first_or remaining key

module _ {F : Type 0} (ids : Uuids) where
  -- the feedback that `ClosureFeedbackGenerator.generate` builds
  unfoldable pub feedback_of : ClosureEvaluationExecution F → (timestamp : ℕ) → ClosureFeedback F
  unfolding feedback_reason show_count
  feedback_of x timestamp =
      let r = x.requirement in
      let result = x.result in
      let reason = feedback_reason result.transition_reason result in
      record {
        feedback_id = ids.uuid5 (
            "closure-feedback:"
            <> ids.show r.gap_id
            <> ":"
            <> show_count result.state_version
            <> ":"
            <> reason_value reason);
        run_id = r.run_id;
        question_id = r.question_id;
        gap_id = r.gap_id;
        dimension_key = r.dimension_key;
        requirement_type = requirement_type_value r.requirement_type;
        previous_status = result.before_status;
        current_status = result.after_status;
        closure_result = result.closure_status;
        failure_reason = reason;
        missing_requirement =
            missing_requirement_of reason result.remaining_requirements r.dimension_key;
        recommended_need_type = need_type_for_reason reason;
        created_at = timestamp;
        metadata = end;
      }

  -- `ClosureFeedbackGenerator.generate`
  unfoldable pub generate_feedback :
      ClosureEvaluationExecution F
      → (now : Option ℕ) → (clock : ℕ) → Result ClosureError (List (ClosureFeedback F))
  unfolding feedback_of check_feedback
  generate_feedback x now clock =
      if is_closed x.result.after_status
      then ok []
      else do feedback ← check_feedback (feedback_of x (or_time now clock)); ok (feedback ∷ [])
