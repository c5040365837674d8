-- ===== src/Closure/Need.antt =====
-- apps/api/app/domain/research_need.py: what a gap that is not closed still needs.
use deep_research_agent.Common.{
  ℕ, Bool, true, false, ◌&&◌, ◌||◌, Option, none, some, List, [], ◌∷◌, String, ltb, nat_eqb, any,
  max, if◌then◌else◌, Result, ok, ◌>>=◌,
}
use deep_research_agent.Common.Text.{is_blank}
use deep_research_agent.Common.Uuids.{Uuids}
use deep_research_agent.Common.Values.{Fields, end}
use deep_research_agent.Common.Checks.{run_checks}
use Prim.Native.String.{◌++◌ as ◌<>◌}
use deep_research_agent.Closure.Data.{
  GapRequirementType, dimension_coverage, independent_source, claim_verification, evidence_quality,
  is_closed, GapRequirement, ClosureEvaluation, ClosureError, empty_description,
  priority_not_positive,
}
use deep_research_agent.Closure.Evaluation.{or_time}
use deep_research_agent.Closure.Alignment.{
  EvidenceAlignment, EvidenceAlignmentReason, missing_independent_source, insufficient_quality,
  claim_not_verified, dimension_mismatch, requirement_not_satisfied, is_partial, is_not_aligned,
  relevant_to,
}
use deep_research_agent.Closure.Context.{from_mapping}
use deep_research_agent.Closure.Feedback.{
  ClosureFeedback, reason_value, ResearchNeedType, need_additional_source, need_independent_source,
  need_claim_verification, need_evidence_quality, need_missing_data, need_dimension_coverage,
  need_unknown,
}

-- `OPEN` is `need_open`, and the others are prefixed likewise.
pub data ResearchNeedStatus : Type 0 where
  need_open need_satisfied need_cancelled : ResearchNeedStatus

pub record ResearchNeed : Type 0 where
  pub need_id : ℕ
  pub gap_id : ℕ
  pub question_id : String
  pub dimension_key : String
  pub requirement_type : GapRequirementType
  pub need_type : ResearchNeedType
  pub description : String
  pub priority : ℕ
  pub status : ResearchNeedStatus
  pub created_at : ℕ
  pub feedback_id : Option ℕ
  pub evidence_failure_reason : Option String
  pub missing_evidence_type : Option String
  pub refined_need_type : Option String
  pub query_hints : List String
  pub existing_source_owners : List String
  pub existing_domains : List String
  pub required_source_count : Option ℕ
  pub missing_source_count : Option ℕ
  pub target_claim_id : Option String

-- `ResearchNeed.__post_init__`
unfoldable pub check_need : ResearchNeed → Result ClosureError ResearchNeed
check_need n =
    run_checks
      ((is_blank n.description, empty_description) ∷ (ltb n.priority 1, priority_not_positive) ∷ [])
      n

abbrev pub need_value : ResearchNeedType → String
need_value need_additional_source = "additional_source"
need_value need_independent_source = "independent_source"
need_value need_claim_verification = "claim_verification"
need_value need_evidence_quality = "evidence_quality"
need_value need_missing_data = "missing_data"
need_value need_dimension_coverage = "dimension_coverage"
need_value need_unknown = "unknown"

abbrev pub reason_is : EvidenceAlignmentReason → Option EvidenceAlignmentReason → Bool
reason_is missing_independent_source (some missing_independent_source) = true
reason_is insufficient_quality (some insufficient_quality) = true
reason_is claim_not_verified (some claim_not_verified) = true
reason_is dimension_mismatch (some dimension_mismatch) = true
reason_is requirement_not_satisfied (some requirement_not_satisfied) = true
reason_is _ _ = false

-- `reason in reasons`, where `reasons` are those of the partial and not aligned alignments
abbrev pub is_given_as : EvidenceAlignmentReason → List EvidenceAlignment → Bool
is_given_as reason alignments =
    any
      (λ a.
        (is_partial a.alignment_status || is_not_aligned a.alignment_status)
        && reason_is reason a.rejection_reason)
      alignments

-- the cases of `_classify_need` by the type of the requirement, which are all its types
abbrev pub need_of_type : GapRequirementType → ResearchNeedType × String
need_of_type independent_source = (need_independent_source, "需要额外独立来源满足来源多样性要求。")
need_of_type claim_verification = (need_claim_verification, "需要完成该 Claim 的验证。")
need_of_type dimension_coverage = (need_dimension_coverage, "需要补足该研究维度的 Coverage。")
need_of_type evidence_quality = (need_evidence_quality, "需要补充满足质量要求的证据。")

-- `max(1, question_priority or 3)`, for a priority that is not negative
abbrev pub priority_of : Option ℕ → ℕ
priority_of none = 3
priority_of (some n) = if nat_eqb n 0 then 3 else max 1 n

module _ {F : Type 0} where
  -- `_feedback_need_description`
  abbrev pub feedback_need_description : ClosureFeedback F → String
  feedback_need_description f =
      f.missing_requirement <> " 未满足: " <> reason_value f.failure_reason <> "。"

  -- `_classify_need`
  unfoldable pub classify_need :
      GapRequirement F
      → List EvidenceAlignment
      → Option (ClosureFeedback F)
      → ResearchNeedType × String
  classify_need r alignments (some f) = (f.recommended_need_type, feedback_need_description f)
  classify_need r alignments none =
      if is_given_as missing_independent_source alignments
      then (need_independent_source, "需要额外独立来源验证该 Requirement。")
      else if is_given_as claim_not_verified alignments
      then (need_claim_verification, "需要进一步验证该 Claim 与现有证据之间的关系。")
      else if is_given_as insufficient_quality alignments
      then (need_evidence_quality, "需要质量更高、可定位且可验证的证据。")
      else if is_given_as dimension_mismatch alignments
      then (need_dimension_coverage, "需要针对该 Evidence Dimension 的研究材料。")
      else need_of_type r.requirement_type

  abbrev pub metadata_of : Option (ClosureFeedback F) → Fields F
  metadata_of none = end
  metadata_of (some f) = f.metadata

  abbrev pub feedback_id_of : Option (ClosureFeedback F) → Option ℕ
  feedback_id_of none = none
  feedback_id_of (some f) = some f.feedback_id

  abbrev pub is_closed_by : Option (ClosureEvaluation F) → Bool
  is_closed_by none = false
  is_closed_by (some e) = is_closed e.closure_status

  module _ (ids : Uuids) where
    -- the need that `ResearchNeedGenerator.generate` builds
    unfoldable pub need_of :
        GapRequirement F
        → List EvidenceAlignment
        → Option (ClosureFeedback F)
        → (question_priority : Option ℕ) → (timestamp : ℕ) → ResearchNeed
    unfolding classify_need from_mapping relevant_to
    need_of r alignments feedback question_priority timestamp =
        let c = classify_need r (relevant_to r.gap_id alignments) feedback in
        let context = from_mapping (metadata_of feedback) in
        record {
          need_id = ids.uuid5 ("research-need:" <> ids.show r.gap_id <> ":" <> need_value c.0);
          gap_id = r.gap_id;
          question_id = r.question_id;
          dimension_key = r.dimension_key;
          requirement_type = r.requirement_type;
          need_type = c.0;
          description = c.1;
          priority = priority_of question_priority;
          status = need_open;
          created_at = timestamp;
          feedback_id = feedback_id_of feedback;
          evidence_failure_reason = context.evidence_failure_reason;
          missing_evidence_type = context.missing_evidence_type;
          refined_need_type = context.refined_need_type;
          query_hints = context.query_hints;
          existing_source_owners = context.existing_source_owners;
          existing_domains = context.existing_domains;
          required_source_count = context.required_source_count;
          missing_source_count = context.missing_source_count;
          target_claim_id = context.target_claim_id;
        }

    -- `ResearchNeedGenerator.generate`
    unfoldable pub generate_need :
        GapRequirement F
        → List EvidenceAlignment
        → Option (ClosureEvaluation F)
        → Option (ClosureFeedback F)
        → (question_priority now : Option ℕ) → (clock : ℕ) → Result ClosureError (List ResearchNeed)
    unfolding need_of check_need
    generate_need r alignments evaluation feedback question_priority now clock =
        if is_closed r.closure_status || is_closed_by evaluation then ok [] else do
          need ← check_need (need_of r alignments feedback question_priority (or_time now clock))
          ok (need ∷ [])
