-- ===== src/Closure/Alignment.antt =====
-- apps/api/app/domain/evidence_alignment.py and
-- apps/api/app/domain/closure_evaluation_context.py: what a piece of evidence says about a
-- requirement, and the context of an evaluation.
pub mod Laws
use deep_research_agent.Common.{
  ℕ, Bool, true, false, not, ◌&&◌, ◌||◌, Option, none, some, List, [], ◌∷◌, String, string_eq,
  nat_eq, ◌==◌, ltb, nat_eqb, if◌then◌else◌, keep_if, count_if, length, Result,
}
use deep_research_agent.Common.Checks.{run_checks}
use deep_research_agent.Closure.Data.{
  GapRequirementType, dimension_coverage, independent_source, claim_verification, evidence_quality,
  is_closed, GapRequirement, ClosureSnapshot, ClosureError, state_version_not_positive,
  satisfied_not_aligned, aligned_with_reason,
}
use deep_research_agent.Closure.Evaluation.{or_time}

pub data EvidenceAlignmentStatus : Type 0 where
  aligned partial not_aligned unknown : EvidenceAlignmentStatus

pub data EvidenceAlignmentReason : Type 0 where
  missing_independent_source insufficient_quality claim_not_verified dimension_mismatch :
      EvidenceAlignmentReason
  requirement_not_satisfied : EvidenceAlignmentReason

pub record EvidenceAlignment : Type 0 where
  pub alignment_id : ℕ
  pub evidence_id : ℕ
  pub gap_id : ℕ
  pub question_id : String
  pub dimension_key : String
  pub requirement_type : GapRequirementType
  pub satisfies_requirement : Bool
  pub alignment_status : EvidenceAlignmentStatus
  pub rejection_reason : Option EvidenceAlignmentReason
  pub created_at : ℕ
  pub state_version : ℕ
  pub extraction_id : Option ℕ
  pub reader_execution_id : Option ℕ
  pub alignment_request_id : Option ℕ

abbrev pub is_aligned : EvidenceAlignmentStatus → Bool
is_aligned aligned = true
is_aligned _ = false

abbrev pub is_partial : EvidenceAlignmentStatus → Bool
is_partial partial = true
is_partial _ = false

abbrev pub is_not_aligned : EvidenceAlignmentStatus → Bool
is_not_aligned not_aligned = true
is_not_aligned _ = false

abbrev pub is_unknown : EvidenceAlignmentStatus → Bool
is_unknown unknown = true
is_unknown _ = false

abbrev pub is_given : {A : Type 0} → Option A → Bool
is_given none = false
is_given (some x) = true

abbrev pub alignment_checks : EvidenceAlignment → List (Bool × ClosureError)
alignment_checks a =
    (ltb a.state_version 1, state_version_not_positive)
    ∷ (a.satisfies_requirement && not (is_aligned a.alignment_status), satisfied_not_aligned)
    ∷ (is_aligned a.alignment_status && is_given a.rejection_reason, aligned_with_reason)
    ∷ []

-- `EvidenceAlignment.__post_init__`
unfoldable pub check_alignment : EvidenceAlignment → Result ClosureError EvidenceAlignment
check_alignment a = run_checks (alignment_checks a) a

-- `requirement_type in (CLAIM_VERIFICATION, INDEPENDENT_SOURCE)`
abbrev pub counts_sources : GapRequirementType → Bool
counts_sources claim_verification = true
counts_sources independent_source = true
counts_sources _ = false

abbrev pub is_claim_verification : GapRequirementType → Bool
is_claim_verification claim_verification = true
is_claim_verification _ = false

abbrev pub is_independent_source : GapRequirementType → Bool
is_independent_source independent_source = true
is_independent_source _ = false

abbrev pub is_evidence_quality : GapRequirementType → Bool
is_evidence_quality evidence_quality = true
is_evidence_quality _ = false

-- the arguments of `EvidenceAlignment.evaluate` about the evidence
pub record EvidenceFacts : Type 0 where
  pub evidence_id : ℕ
  pub evidence_dimension_key : Option String
  pub evidence_quality_passed : Bool
  pub independent_source_count : ℕ
  pub claim_verified : Bool
  pub state_version : Option ℕ
  pub created_at : Option ℕ

-- `evidence_dimension_key != requirement.dimension_key`
abbrev pub is_other : Option String → String → Bool
is_other none key = true
is_other (some k) key = not (k == key)

-- `state_version or requirement.state_version`
abbrev pub or_version : Option ℕ → ℕ → ℕ
or_version none v = v
or_version (some n) v = if nat_eqb n 0 then v else n

-- the status and the reason that `evaluate` finds
pub record AlignmentVerdict : Type 0 where
  pub status : EvidenceAlignmentStatus
  pub reason : Option EvidenceAlignmentReason

abbrev pub verdict : EvidenceAlignmentStatus → EvidenceAlignmentReason → AlignmentVerdict
verdict s r = record { status = s; reason = some r }

module _ {F : Type 0} where
  unfoldable pub classify_evidence : GapRequirement F → EvidenceFacts → AlignmentVerdict
  classify_evidence r e =
      if is_other e.evidence_dimension_key r.dimension_key
      then verdict not_aligned dimension_mismatch
      else if not e.evidence_quality_passed
      then verdict not_aligned insufficient_quality
      else if counts_sources r.requirement_type
          && ltb e.independent_source_count r.required_independent_sources
      then verdict partial (
          if is_claim_verification r.requirement_type
          then claim_not_verified
          else missing_independent_source)
      else if is_evidence_quality r.requirement_type && not e.claim_verified
      then verdict partial requirement_not_satisfied
      else record { status = aligned; reason = none }

  -- the alignment that `EvidenceAlignment.evaluate` builds
  unfoldable pub alignment_of :
      (id clock : ℕ) → GapRequirement F → EvidenceFacts → EvidenceAlignment
  unfolding classify_evidence
  alignment_of id clock r e =
      let v = classify_evidence r e in
      record {
        alignment_id = id;
        evidence_id = e.evidence_id;
        gap_id = r.gap_id;
        question_id = r.question_id;
        dimension_key = r.dimension_key;
        requirement_type = r.requirement_type;
        satisfies_requirement = is_aligned v.status;
        alignment_status = v.status;
        rejection_reason = v.reason;
        created_at = or_time e.created_at clock;
        state_version = or_version e.state_version r.state_version;
        extraction_id = none;
        reader_execution_id = none;
        alignment_request_id = none;
      }

  -- `EvidenceAlignment.evaluate`; `id` is what `uuid4()` returns, `clock` what the clock shows
  unfoldable pub evaluate_alignment :
      (id clock : ℕ) → GapRequirement F → EvidenceFacts → Result ClosureError EvidenceAlignment
  unfolding alignment_of check_alignment
  evaluate_alignment id clock r e = check_alignment (alignment_of id clock r e)

pub record EvidenceAlignmentSummary : Type 0 where
  pub aligned_count : ℕ
  pub partial_count : ℕ
  pub not_aligned_count : ℕ
  pub unknown_count : ℕ
  pub remaining_requirement_reason : Option EvidenceAlignmentReason

-- `[item for item in alignments if item.gap_id == gap_id]`
unfoldable pub relevant_to : ℕ → List EvidenceAlignment → List EvidenceAlignment
relevant_to gap_id alignments = keep_if (λ a. a.gap_id == gap_id) alignments

abbrev pub count_status : (EvidenceAlignmentStatus → Bool) → List EvidenceAlignment → ℕ
count_status p items = count_if (λ a. p a.alignment_status) items

-- the first reason that is given
abbrev pub first_reason : List EvidenceAlignment → Option EvidenceAlignmentReason
first_reason [] = none
first_reason (a ∷ items) = elim a.rejection_reason [ some r ↦ some r | none ↦ first_reason items ]

unfoldable pub summarize_alignments :
    {F : Type 0} → GapRequirement F → List EvidenceAlignment → EvidenceAlignmentSummary
unfolding relevant_to
summarize_alignments r alignments =
    let relevant = relevant_to r.gap_id alignments in
    record {
      aligned_count = count_status is_aligned relevant;
      partial_count = count_status is_partial relevant;
      not_aligned_count = count_status is_not_aligned relevant;
      unknown_count = count_status is_unknown relevant;
      remaining_requirement_reason =
          if nat_eqb (length relevant) 0 && not (is_closed r.closure_status)
          then some requirement_not_satisfied
          else first_reason relevant;
    }

pub record ClosureEvaluationContext (F : Type 0) : Type 0 where
  pub gap_id : ℕ
  pub before_snapshot : ClosureSnapshot F
  pub evidence_alignments : List EvidenceAlignment
  pub new_evidence_count : ℕ
  pub aligned_evidence_count : ℕ
  pub partial_evidence_count : ℕ
  pub independent_source_count : ℕ

-- `ClosureEvaluationContext.from_alignments`
unfoldable pub from_alignments :
    {F : Type 0}
    → (gap_id : ℕ) → ClosureSnapshot F
    → List EvidenceAlignment
    → (independent_source_count : ℕ) → ClosureEvaluationContext F
unfolding relevant_to
from_alignments gap_id before alignments independent_source_count =
    let relevant = relevant_to gap_id alignments in
    record {
      gap_id = gap_id;
      before_snapshot = before;
      evidence_alignments = relevant;
      new_evidence_count = length relevant;
      aligned_evidence_count = count_status is_aligned relevant;
      partial_evidence_count = count_status is_partial relevant;
      independent_source_count = independent_source_count;
    }
