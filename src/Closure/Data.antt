-- ===== src/Closure/Data.antt =====
-- The enumerations and models of apps/api/app/domain/gap_closure.py, and their validators, which run
-- when a model is built or replaced. Counts and versions are not negative; a `datetime` is a number.
use deep_research_agent.Common.{
  ℕ, Bool, true, false, not, ◌&&◌, Option, none, some, List, [], ◌∷◌, String, ltb, Result,
}
use deep_research_agent.Common.Checks.{run_checks}
use deep_research_agent.Common.Floats.{Floats}
use deep_research_agent.Common.Values.{ℤ}

pub data GapRequirementType : Type 0 where
  dimension_coverage independent_source claim_verification evidence_quality : GapRequirementType

pub data VerificationStatus : Type 0 where
  not_evaluated required verified failed : VerificationStatus

-- `OPEN` is `opened`, since `open` is a keyword.
pub data GapClosureStatus : Type 0 where
  opened partial closed : GapClosureStatus

pub record ClosureSnapshot (F : Type 0) : Type 0 where
  pub coverage : F
  pub evidence_count : ℕ
  pub independent_sources : ℕ
  pub verification_status : VerificationStatus

pub record GapRequirement (F : Type 0) : Type 0 where
  pub gap_id : ℕ
  pub run_id : ℕ
  pub question_id : String
  pub dimension_key : String
  pub requirement_type : GapRequirementType
  pub criterion : String
  pub required_evidence_count : ℕ
  pub required_independent_sources : ℕ
  pub current_evidence_count : ℕ
  pub current_independent_sources : ℕ
  pub verification_status : VerificationStatus
  pub closure_status : GapClosureStatus
  pub created_at : ℕ
  pub updated_at : ℕ
  pub state_version : ℕ
  pub current_coverage : F
  pub required_coverage : Option F
  pub transition_reason : String
  pub plan_version : ℕ
  pub migration_source : String

pub record ClosureEvaluation (F : Type 0) : Type 0 where
  pub evaluation_id : ℕ
  pub gap_id : ℕ
  pub before_snapshot : ClosureSnapshot F
  pub after_snapshot : ClosureSnapshot F
  pub evidence_delta : ℤ
  pub independent_source_delta : ℤ
  pub requirement_satisfied : Bool
  pub closure_status : GapClosureStatus
  pub reason : String

-- the messages of the `ValueError`s of this component
pub data ClosureError : Type 0 where
  coverage_out_of_range state_version_not_positive plan_version_not_positive : ClosureError
  current_coverage_out_of_range required_coverage_out_of_range : ClosureError
  empty_transition_reason closure_moves_backwards gaps_do_not_match : ClosureError
  satisfied_not_aligned aligned_with_reason : ClosureError
  empty_missing_requirement empty_description empty_action_text : ClosureError
  priority_not_positive need_does_not_match badly_formed_uuid : ClosureError

abbrev pub is_closed : GapClosureStatus → Bool
is_closed closed = true
is_closed _ = false

abbrev pub same_verification : VerificationStatus → VerificationStatus → Bool
same_verification not_evaluated not_evaluated = true
same_verification required required = true
same_verification verified verified = true
same_verification failed failed = true
same_verification _ _ = false

abbrev pub same_status : GapClosureStatus → GapClosureStatus → Bool
same_status opened opened = true
same_status partial partial = true
same_status closed closed = true
same_status _ _ = false

module _ (fl : Floats) where
  open fl use {F, le, decimal}

  -- `0.0 <= x <= 1.0`
  abbrev pub in_unit : F → Bool
  in_unit x = le (decimal 0 0) x && le x (decimal 1 0)

  abbrev pub in_unit_if_given : Option F → Bool
  in_unit_if_given none = true
  in_unit_if_given (some x) = in_unit x

  -- `ClosureSnapshot.__post_init__`
  unfoldable pub check_snapshot : ClosureSnapshot F → Result ClosureError (ClosureSnapshot F)
  check_snapshot s = run_checks ((not (in_unit s.coverage), coverage_out_of_range) ∷ []) s

  abbrev pub requirement_checks : GapRequirement F → List (Bool × ClosureError)
  requirement_checks r =
      (ltb r.state_version 1, state_version_not_positive)
      ∷ (ltb r.plan_version 1, plan_version_not_positive)
      ∷ (not (in_unit r.current_coverage), current_coverage_out_of_range)
      ∷ (not (in_unit_if_given r.required_coverage), required_coverage_out_of_range)
      ∷ []

  -- `GapRequirement.__post_init__`
  unfoldable pub check_requirement : GapRequirement F → Result ClosureError (GapRequirement F)
  check_requirement r = run_checks (requirement_checks r) r
