-- ===== src/Recovery/Outcome.antt =====
-- `RecoveryOutcome.evaluate` of apps/api/app/domain/recovery_execution.py.
pub mod Laws
use deep_research_agent.Common.{
  ℕ, ◌+◌, ◌-◌, ◌≤◌, ◌<◌, ◌≡◌, ◌↔◌, ◌⊎◌, inl, inr, Bool, Bool-cases, true, false, not, ◌&&◌, ◌||◌,
  Option, List, String, arith, ltb, leb, if◌then◌else◌,
}
use deep_research_agent.Common.Floats.{Floats, lt, fmax, IsNonneg, decimal-IsNonneg}
use deep_research_agent.Common.Values.{ℤ, pos, negsuc, clip}

pub data RecoveryOutcomeType : Type 0 where
  successful partial low_gain failed : RecoveryOutcomeType

-- `EVALUATED`, which is the only state that the code gives
pub data RecoveryOutcomeState : Type 0 where
  not_evaluated evaluated : RecoveryOutcomeState

-- the arguments of `evaluate`
pub record RecoveryMeasurement (F : Type 0) : Type 0 where
  pub run_id : ℕ
  pub question_id : String
  pub plan_version : ℤ
  pub recovery_attempt_id : ℕ
  pub coverage_before : F
  pub coverage_after : F
  pub gap_count_before : ℤ
  pub gap_count_after : ℤ
  pub accepted_evidence_before : ℤ
  pub accepted_evidence_after : ℤ
  pub candidate_evidence_before : ℤ
  pub candidate_evidence_after : ℤ
  pub independent_sources_before : ℤ
  pub independent_sources_after : ℤ
  pub tokens_reserved : ℤ
  pub tokens_used : ℤ
  pub new_sources_count : ℤ
  pub new_independent_sources_count : ℤ
  pub execution_failed : Bool
  pub closure_evaluation_id : Option ℕ
  pub closure_evaluation_ids : List ℕ
  pub closed_gap_ids : List String
  pub partial_gap_ids : List String
  pub remaining_gap_ids : List String

pub record RecoveryOutcome (F : Type 0) : Type 0 where
  pub run_id : ℕ
  pub question_id : String
  pub plan_version : ℤ
  pub recovery_attempt_id : ℕ
  pub coverage_before : F
  pub coverage_after : F
  pub gap_count_before : ℕ
  pub gap_count_after : ℕ
  pub accepted_evidence_before : ℕ
  pub accepted_evidence_after : ℕ
  pub candidate_evidence_before : ℕ
  pub candidate_evidence_after : ℕ
  pub independent_sources_before : ℕ
  pub independent_sources_after : ℕ
  pub tokens_reserved : ℕ
  pub tokens_used : ℕ
  pub new_sources_count : ℕ
  pub new_independent_sources_count : ℕ
  pub outcome_type : RecoveryOutcomeType
  pub utility_gain : F
  pub state : RecoveryOutcomeState
  pub closure_evaluation_id : Option ℕ
  pub closure_evaluation_ids : List ℕ
  pub closed_gap_ids : List String
  pub partial_gap_ids : List String
  pub remaining_gap_ids : List String

-- `max(0, a - b)`
abbrev pub excess : ℤ → ℤ → ℕ
excess (pos m) (pos n) = m - n
excess (pos m) (negsuc n) = m + n + 1
excess (negsuc m) (pos n) = 0
excess (negsuc m) (negsuc n) = n - m

module _ (fl : Floats) where
  open fl use {F, le, decimal, add, sub, mul, round}

  -- `max(0.0, coverage_after - coverage_before)`
  abbrev pub coverage_delta : RecoveryMeasurement F → F
  coverage_delta m = fmax fl (decimal 0 0) (sub m.coverage_after m.coverage_before)

  abbrev pub gap_reduction : RecoveryMeasurement F → ℕ
  gap_reduction m = excess m.gap_count_before m.gap_count_after

  abbrev pub accepted_delta : RecoveryMeasurement F → ℕ
  accepted_delta m = excess m.accepted_evidence_after m.accepted_evidence_before

  abbrev pub candidate_delta : RecoveryMeasurement F → ℕ
  candidate_delta m = excess m.candidate_evidence_after m.candidate_evidence_before

  abbrev pub independent_delta : RecoveryMeasurement F → ℕ
  independent_delta m = excess m.independent_sources_after m.independent_sources_before

  unfoldable pub useful_result : RecoveryMeasurement F → Bool
  useful_result m =
      lt fl (decimal 0 0) (coverage_delta m)
      || ltb 0 (gap_reduction m)
      || ltb 0 (accepted_delta m)
      || ltb 0 (candidate_delta m)
      || ltb 0 (independent_delta m)
      || ltb 0 (clip m.new_sources_count)

  unfoldable pub outcome_type_of : RecoveryMeasurement F → RecoveryOutcomeType
  unfolding useful_result
  outcome_type_of m =
      if m.execution_failed
      then failed
      else if not (useful_result m)
      then if ltb 0 (clip m.tokens_used) || ltb 0 (clip m.tokens_reserved) then low_gain else failed
      else if le (decimal 2 1) (coverage_delta m)
          || ltb 0 (gap_reduction m)
          || leb 5 (accepted_delta m)
          || ltb 0 (independent_delta m)
      then successful
      else partial

  -- an integer as a float: exact, as the counts of a run are small
  abbrev pub signed : ℤ → F
  signed (pos n) = decimal n 0
  signed (negsuc n) = sub (decimal 0 0) (decimal (n + 1) 0)

  unfoldable pub utility_gain_of : RecoveryMeasurement F → F
  utility_gain_of m =
      round
        (add
          (add
            (add (add (coverage_delta m) (mul (decimal (gap_reduction m) 0) (decimal 1 1)))
              (mul (decimal (accepted_delta m) 0) (decimal 2 2)))
            (mul (decimal (independent_delta m) 0) (decimal 5 2)))
          (mul (signed m.new_sources_count) (decimal 1 2)))
        6

  -- `RecoveryOutcome.evaluate`
  unfoldable pub evaluate_outcome : RecoveryMeasurement F → RecoveryOutcome F
  unfolding outcome_type_of utility_gain_of
  evaluate_outcome m = record {
    run_id = m.run_id;
    question_id = m.question_id;
    plan_version = m.plan_version;
    recovery_attempt_id = m.recovery_attempt_id;
    coverage_before = m.coverage_before;
    coverage_after = m.coverage_after;
    gap_count_before = clip m.gap_count_before;
    gap_count_after = clip m.gap_count_after;
    accepted_evidence_before = clip m.accepted_evidence_before;
    accepted_evidence_after = clip m.accepted_evidence_after;
    candidate_evidence_before = clip m.candidate_evidence_before;
    candidate_evidence_after = clip m.candidate_evidence_after;
    independent_sources_before = clip m.independent_sources_before;
    independent_sources_after = clip m.independent_sources_after;
    tokens_reserved = clip m.tokens_reserved;
    tokens_used = clip m.tokens_used;
    new_sources_count = clip m.new_sources_count;
    new_independent_sources_count = clip m.new_independent_sources_count;
    outcome_type = outcome_type_of m;
    utility_gain = utility_gain_of m;
    state = evaluated;
    closure_evaluation_id = m.closure_evaluation_id;
    closure_evaluation_ids = m.closure_evaluation_ids;
    closed_gap_ids = m.closed_gap_ids;
    partial_gap_ids = m.partial_gap_ids;
    remaining_gap_ids = m.remaining_gap_ids;
  }
