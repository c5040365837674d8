-- ===== src/Closure/Completeness.antt =====
-- apps/api/app/domain/closure_feedback_completeness.py and
-- apps/api/app/domain/closure_feedback_completeness_pass.py: the feedback for gaps that have none.
pub mod Laws
pub mod Total
pub mod Report
use deep_research_agent.Common.{
  ℕ, Bool, true, false, not, ◌&&◌, Option, none, some, List, [], ◌∷◌, ◌++◌, String, string_eq,
  nat_eq, ltb, contains, keep_if, map, if◌then◌else◌, Result, ok, raise, ◌>>=◌,
}
use deep_research_agent.Common.Dict.{get, put, keys}
use deep_research_agent.Common.Text.{show_count}
use deep_research_agent.Common.Uuids.{Uuids}
use deep_research_agent.Common.Values.{end}
use Prim.Native.String.{◌++◌ as ◌<>◌}
use deep_research_agent.Closure.Data.{
  GapRequirementType, claim_verification, evidence_quality, VerificationStatus, verified,
  same_verification, is_closed, GapRequirement, ClosureError,
}
use deep_research_agent.Closure.Evaluation.{or_time}
use deep_research_agent.Closure.Alignment.{
  EvidenceAlignmentStatus, partial, not_aligned, unknown, is_claim_verification,
  is_evidence_quality, is_not_aligned, is_partial,
}
use deep_research_agent.Closure.Feedback.{
  ClosureFeedback, ClosureFeedbackReason, missing_independent_source, claim_not_verified,
  insufficient_evidence, evidence_quality_low, dimension_mismatch, no_valid_path, reason_value,
  requirement_type_value, need_type_for_reason, missing_requirement_of, check_feedback,
}

-- `status_lookup.get(gap_id, UNKNOWN)`
unfoldable pub alignment_status_of :
    List (ℕ × EvidenceAlignmentStatus) → ℕ → EvidenceAlignmentStatus
unfolding get
alignment_status_of statuses gap_id = elim (get gap_id statuses) [ none ↦ unknown | some s ↦ s ]

module _ {F : Type 0} where
  unfoldable pub derive_feedback_reason :
      GapRequirement F → EvidenceAlignmentStatus → ClosureFeedbackReason
  derive_feedback_reason r alignment_status =
      if ltb r.current_evidence_count r.required_evidence_count
      then insufficient_evidence
      else if ltb r.current_independent_sources r.required_independent_sources
      then missing_independent_source
      else if is_claim_verification r.requirement_type
          && not (same_verification r.verification_status verified)
      then claim_not_verified
      else if is_not_aligned alignment_status
      then dimension_mismatch
      else if is_partial alignment_status
      then evidence_quality_low
      else if is_evidence_quality r.requirement_type
      then evidence_quality_low
      else no_valid_path

-- `if x is not None: xs.append(x)`, read from the end
abbrev pub add_if_given : {A : Type 0} → Option A → List A → List A
add_if_given none xs = xs
add_if_given (some x) xs = x ∷ xs

-- `mapping.setdefault(key, value)`
abbrev pub set_default : String → String → List (String × String) → List (String × String)
set_default key value d = if contains key (keys d) then d else put key value d

module _ {F : Type 0} (ids : Uuids) where
  -- the feedback that `generate_completeness_feedback` builds
  unfoldable pub completeness_feedback_of :
      GapRequirement F → EvidenceAlignmentStatus → (timestamp : ℕ) → ClosureFeedback F
  unfolding derive_feedback_reason show_count
  completeness_feedback_of r alignment_status timestamp =
      let reason = derive_feedback_reason r alignment_status in
      record {
        feedback_id = ids.uuid5 (
            "closure-feedback-completeness:"
            <> ids.show r.gap_id
            <> ":"
            <> show_count r.state_version
            <> ":"
            <> reason_value reason);
        run_id = r.run_id;
        question_id = r.question_id;
        gap_id = r.gap_id;
        dimension_key = r.dimension_key;
        requirement_type = requirement_type_value r.requirement_type;
        previous_status = r.closure_status;
        current_status = r.closure_status;
        closure_result = r.closure_status;
        failure_reason = reason;
        missing_requirement = missing_requirement_of reason [] r.dimension_key;
        recommended_need_type = need_type_for_reason reason;
        created_at = timestamp;
        metadata = end;
      }

  unfoldable pub generate_completeness_feedback :
      GapRequirement F
      → EvidenceAlignmentStatus
      → (now : Option ℕ) → (clock : ℕ) → Result ClosureError (Option (ClosureFeedback F))
  unfolding completeness_feedback_of check_feedback
  generate_completeness_feedback r alignment_status now clock =
      if is_closed r.closure_status then ok none else do
        feedback ← check_feedback (completeness_feedback_of r alignment_status (or_time now clock))
        ok (some feedback)

  abbrev pub add_feedback_ids :
      List (String × String) → List (ClosureFeedback F) → List (String × String)
  add_feedback_ids mapping [] = mapping
  add_feedback_ids mapping (f ∷ fs) =
      add_feedback_ids (set_default (ids.show f.gap_id) (ids.show f.feedback_id) mapping) fs

  -- `_feedback_id_by_gap`
  unfoldable pub feedback_id_by_gap : List (ClosureFeedback F) → List (String × String)
  feedback_id_by_gap fs = add_feedback_ids [] fs

  -- a requirement that is not closed and not in `covered`
  abbrev pub is_uncovered : (covered : List String) → GapRequirement F → Bool
  is_uncovered covered r =
      not (is_closed r.closure_status) && not (contains (ids.show r.gap_id) covered)

  unfoldable pub missing_feedback_requirements :
      List (GapRequirement F) → List (ClosureFeedback F) → List (GapRequirement F)
  unfolding feedback_id_by_gap
  missing_feedback_requirements requirements feedbacks =
      keep_if (is_uncovered (keys (feedback_id_by_gap feedbacks))) requirements

  unfoldable pub feedback_completeness_violations :
      List (GapRequirement F) → List (ClosureFeedback F) → List String
  unfolding feedback_id_by_gap
  feedback_completeness_violations requirements feedbacks =
      map (λ r. ids.show r.gap_id)
        (keep_if (is_uncovered (keys (feedback_id_by_gap feedbacks))) requirements)

  -- the loop of `complete_feedback_gaps`
  unfoldable pub backfill :
      List (ℕ × EvidenceAlignmentStatus)
      → (now : Option ℕ) → (clock : ℕ) → List (GapRequirement F)
      → Result ClosureError (List (ClosureFeedback F))
  unfolding generate_completeness_feedback alignment_status_of
  backfill statuses now clock [] = ok []
  backfill statuses now clock (r ∷ rs) = do
    feedback ← generate_completeness_feedback r (alignment_status_of statuses r.gap_id) now clock
    rest ← backfill statuses now clock rs
    ok (add_if_given feedback rest)

  unfoldable pub complete_feedback_gaps :
      List (GapRequirement F)
      → List (ClosureFeedback F)
      → List (ℕ × EvidenceAlignmentStatus)
      → (now : Option ℕ) → (clock : ℕ) → Result ClosureError (List (ClosureFeedback F))
  unfolding missing_feedback_requirements backfill
  complete_feedback_gaps requirements feedbacks statuses now clock =
      backfill statuses now clock (missing_feedback_requirements requirements feedbacks)
