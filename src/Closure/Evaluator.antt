-- ===== src/Closure/Evaluator.antt =====
-- `ClosureEvaluator` of apps/api/app/domain/closure_evaluator.py.
pub mod Laws
pub mod Outcomes
use deep_research_agent.Common.{
  ℕ, ◌+◌, Bool, true, false, not, ◌&&◌, ◌||◌, Option, none, some, List, [], ◌∷◌, String, ltb, leb,
  nat_eqb, if◌then◌else◌, any, Result, ok, raise, raise_if, ◌>>=◌, ◌>>◌,
}
use deep_research_agent.Common.Floats.{Floats}
use deep_research_agent.Closure.Data.{
  VerificationStatus, verified, required, GapClosureStatus, closed, is_closed, same_status,
  ClosureSnapshot, GapRequirement, ClosureError, gaps_do_not_match, check_snapshot,
}
use deep_research_agent.Closure.Evaluation.{
  closure_rank, or_time, apply_closure_transition, evaluate,
}
use deep_research_agent.Closure.Alignment.{
  EvidenceAlignment, EvidenceAlignmentReason, missing_independent_source, claim_not_verified,
  dimension_mismatch, ClosureEvaluationContext, is_claim_verification, is_independent_source,
}

pub data ClosureEvaluationEventType : Type 0 where
  started completed transition : ClosureEvaluationEventType

pub record ClosureEvaluationResult : Type 0 where
  pub evaluation_id : ℕ
  pub gap_id : ℕ
  pub question_id : String
  pub before_status : GapClosureStatus
  pub after_status : GapClosureStatus
  pub closure_status : GapClosureStatus
  pub transition_reason : String
  pub aligned_evidence_count : ℕ
  pub partial_evidence_count : ℕ
  pub remaining_requirements : List String
  pub closed_requirements : List String
  pub state_version : ℕ

pub record ClosureEvaluationEvent : Type 0 where
  pub event_type : ClosureEvaluationEventType
  pub run_id : ℕ
  pub question_id : String
  pub gap_id : ℕ
  pub evaluation_id : ℕ
  pub before_status : GapClosureStatus
  pub after_status : GapClosureStatus
  pub state_version : ℕ
  pub transition_reason : String
  pub timestamp : ℕ

pub record ClosureEvaluationExecution (F : Type 0) : Type 0 where
  pub requirement : GapRequirement F
  pub result : ClosureEvaluationResult
  pub events : List ClosureEvaluationEvent

abbrev pub same_reason : EvidenceAlignmentReason → EvidenceAlignmentReason → Bool
same_reason missing_independent_source missing_independent_source = true
same_reason claim_not_verified claim_not_verified = true
same_reason dimension_mismatch dimension_mismatch = true
same_reason _ _ = false

abbrev pub has_reason : EvidenceAlignmentReason → Option EvidenceAlignmentReason → Bool
has_reason r none = false
has_reason r (some s) = same_reason r s

-- `reason in reasons`, where `reasons` is the set of the rejection reasons
abbrev pub rejected_for : EvidenceAlignmentReason → List EvidenceAlignment → Bool
rejected_for r items = any (λ a. has_reason r a.rejection_reason) items

module _ {F : Type 0} where
  -- `_event`
  abbrev pub event :
      ClosureEvaluationEventType
      → GapRequirement F
      → (evaluation_id : ℕ) → (before_status after_status : GapClosureStatus) → (state_version : ℕ)
      → (transition_reason : String) → (timestamp : ℕ) → ClosureEvaluationEvent
  event type r evaluation_id before after version reason timestamp = record {
    event_type = type;
    run_id = r.run_id;
    question_id = r.question_id;
    gap_id = r.gap_id;
    evaluation_id = evaluation_id;
    before_status = before;
    after_status = after;
    state_version = version;
    transition_reason = reason;
    timestamp = timestamp;
  }

  -- `_transition_reason`
  unfoldable pub transition_reason_of : ClosureEvaluationContext F → String → String
  transition_reason_of c fallback =
      if rejected_for missing_independent_source c.evidence_alignments
      then "missing_independent_source"
      else if rejected_for claim_not_verified c.evidence_alignments
      then "claim_verification_required"
      else if rejected_for dimension_mismatch c.evidence_alignments
      then "dimension_mismatch"
      else fallback

  -- `_remaining_requirements`
  unfoldable pub remaining_requirements_of :
      GapRequirement F → ClosureEvaluationContext F → GapClosureStatus → List String
  remaining_requirements_of r c status =
      let short = ltb c.independent_source_count r.required_independent_sources in
      if is_closed status
      then []
      else if is_independent_source r.requirement_type && short
      then "independent_source" ∷ []
      else if is_claim_verification r.requirement_type && short
      then "claim_verification" ∷ []
      else r.dimension_key ∷ []

-- What the branches of `evaluate` assign to `after_requirement`, `raw_status` and `reason`.
pub record Assessed (F : Type 0) : Type 0 where
  pub after_requirement : GapRequirement F
  pub raw_status : GapClosureStatus
  pub reason : String

module _ (fl : Floats) where
  open fl use {F}

  -- the snapshot that `_after_snapshot` builds
  unfoldable pub projected_snapshot :
      ClosureEvaluationContext F → GapRequirement F → ClosureSnapshot F
  projected_snapshot c r = record {
    coverage = c.before_snapshot.coverage;
    evidence_count =
        c.before_snapshot.evidence_count + c.aligned_evidence_count + c.partial_evidence_count;
    independent_sources = c.independent_source_count;
    verification_status =
        if is_claim_verification r.requirement_type
        then if leb r.required_independent_sources c.independent_source_count
          then verified
          else required
        else c.before_snapshot.verification_status;
  }

  -- `_after_snapshot`
  unfoldable pub after_snapshot_of :
      ClosureEvaluationContext F → GapRequirement F → Result ClosureError (ClosureSnapshot F)
  unfolding projected_snapshot check_snapshot
  after_snapshot_of c r = check_snapshot fl (projected_snapshot c r)

  -- the status and the reason once a status of a lower rank gives way to the present one
  unfoldable pub settle :
      GapRequirement F
      → (raw_status : GapClosureStatus) → (reason : String) → GapClosureStatus × String
  settle r raw_status reason =
      if ltb (closure_rank raw_status) (closure_rank r.closure_status)
      then (r.closure_status, "existing_closure_state_preserved")
      else (raw_status, reason)

  -- the branch of `evaluate` for a requirement that is not closed
  unfoldable pub assess_open :
      ClosureEvaluationContext F
      → GapRequirement F
      → (uuid timestamp : ℕ) → Result ClosureError (Assessed F)
  unfolding after_snapshot_of evaluate transition_reason_of settle apply_closure_transition
  assess_open c r uuid timestamp = do
    after ← after_snapshot_of c r
    let raw = evaluate fl uuid r c.before_snapshot after
    let settled = settle r raw.closure_status (transition_reason_of c raw.reason)
    moved ← apply_closure_transition fl r settled.0 settled.1 (some timestamp) timestamp
    ok (record { after_requirement = moved; raw_status = settled.0; reason = settled.1 })

  unfoldable pub assess :
      ClosureEvaluationContext F
      → GapRequirement F
      → (uuid timestamp : ℕ) → Result ClosureError (Assessed F)
  unfolding assess_open
  assess c r uuid timestamp =
      if is_closed r.closure_status
      then ok
          (record { after_requirement = r; raw_status = closed; reason = "closed_state_immutable" })
      else assess_open c r uuid timestamp

  -- the result and the events that `evaluate` returns
  unfoldable pub execution_of :
      ClosureEvaluationContext F
      → GapRequirement F
      → (evaluation_id timestamp : ℕ) → Assessed F
      → ClosureEvaluationExecution F
  unfolding remaining_requirements_of
  execution_of c r evaluation_id timestamp a =
      let after = a.after_requirement in
      let step = λ (type : ClosureEvaluationEventType).
        event type after evaluation_id r.closure_status after.closure_status after.state_version
          a.reason timestamp in
      let first =
        event started r evaluation_id r.closure_status r.closure_status r.state_version
          "closure_evaluation_started" timestamp in
      record {
        requirement = after;
        result = record {
          evaluation_id = evaluation_id;
          gap_id = r.gap_id;
          question_id = r.question_id;
          before_status = r.closure_status;
          after_status = after.closure_status;
          closure_status = a.raw_status;
          transition_reason = a.reason;
          aligned_evidence_count = c.aligned_evidence_count;
          partial_evidence_count = c.partial_evidence_count;
          remaining_requirements = remaining_requirements_of r c after.closure_status;
          closed_requirements = if is_closed after.closure_status then r.dimension_key ∷ [] else [];
          state_version = after.state_version;
        };
        events =
            if same_status after.closure_status r.closure_status
            then first ∷ step completed ∷ []
            else first ∷ step transition ∷ step completed ∷ [];
      }

  -- `ClosureEvaluator.evaluate`; `evaluation_id` and `uuid` are what the two calls of `uuid4()`
  -- return, the second within `ClosureEvaluation.evaluate`
  unfoldable pub evaluate_closure :
      ClosureEvaluationContext F
      → GapRequirement F
      → (now : Option ℕ) → (clock evaluation_id uuid : ℕ)
      → Result ClosureError (ClosureEvaluationExecution F)
  unfolding assess execution_of
  evaluate_closure c r now clock evaluation_id uuid = do
    raise_if (not (nat_eqb c.gap_id r.gap_id)) gaps_do_not_match
    assessed ← assess c r uuid (or_time now clock)
    ok (execution_of c r evaluation_id (or_time now clock) assessed)
