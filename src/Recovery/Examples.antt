-- ===== src/Recovery/Examples.antt =====
-- A recovery attempt that is started and completed, and its outcome.
use deep_research_agent.Common.{
  ℕ, ◌+◌, ◌≤◌, ◌≡◌, ◌↔◌, ◌⊎◌, refl, true, false, none, some, [], ◌∷◌, String, string_eq, length, ok,
  raise,
}
use deep_research_agent.Common.Micros.{micros}
use deep_research_agent.Common.Values.{pos, clip, Fields, end, field, text}
use deep_research_agent.Recovery.Execution.{
  RecoveryExecution, RecoveryAttempt, RecoveryCompletion, RecoveryError, completed, authorize,
  start, complete,
}
use deep_research_agent.Recovery.Execution.Runs.{
  starting, completing, cancelling, apply, apply_all, steps_left, IsSound, run-IsSound,
  final_refuses,
}
use deep_research_agent.Recovery.Outcome.{
  RecoveryMeasurement, successful, failed, gap_reduction, accepted_delta, independent_delta,
  useful_result, outcome_type_of,
}
use deep_research_agent.Recovery.Outcome.Laws.{outcome_explained}

abbrev attempt : RecoveryAttempt ℕ
attempt = record {
  run_id = 1;
  question_id = "q1";
  plan_version = pos 1;
  attempt_id = 4;
  coverage_before = 200000;
  gap_before = "pricing" ∷ [];
  tokens_reserved = pos 3000;
  accepted_evidence_before = pos 2;
}

abbrev completion : RecoveryCompletion ℕ
completion = record {
  coverage_after = 700000;
  gap_after = [];
  accepted_evidence_after = pos 6;
  reason = none;
}

-- the attempt after both operations
abbrev finished : RecoveryExecution ℕ
finished = record (authorize attempt) {
  coverage_after = some 700000;
  gap_after = [];
  accepted_evidence_after = pos 6;
  reason = none;
  state = completed;
}

finishes : apply_all (starting ∷ completing completion ∷ []) (authorize attempt) ≡ ok finished
unfolding apply_all apply authorize start complete
finishes = refl

abbrev measurement : RecoveryMeasurement ℕ
measurement = record {
  run_id = 1;
  question_id = "q1";
  plan_version = pos 1;
  recovery_attempt_id = 4;
  coverage_before = 200000;
  coverage_after = 700000;
  gap_count_before = pos 2;
  gap_count_after = pos 1;
  accepted_evidence_before = pos 2;
  accepted_evidence_after = pos 6;
  candidate_evidence_before = pos 3;
  candidate_evidence_after = pos 8;
  independent_sources_before = pos 1;
  independent_sources_after = pos 2;
  tokens_reserved = pos 3000;
  tokens_used = pos 2500;
  new_sources_count = pos 2;
  new_independent_sources_count = pos 1;
  execution_failed = false;
  closure_evaluation_id = none;
  closure_evaluation_ids = [];
  closed_gap_ids = [];
  partial_gap_ids = [];
  remaining_gap_ids = [];
}

abbrev tokens_key : String
tokens_key = "tokens"

abbrev usage : Fields ℕ
usage = field "recovery_attempt_id" (text "||||") (field "tokens" (text "2500") end)

run-IsSound_example :
    IsSound attempt finished
    × (length (starting ∷ completing completion ∷ []) + steps_left finished.state ≤ 2)
run-IsSound_example = run-IsSound attempt (starting ∷ completing completion ∷ []) finished finishes

final_refuses_example : (e : RecoveryError) × (apply (cancelling "late") finished ≡ raise e)
final_refuses_example = final_refuses (cancelling "late") finished refl

outcome_explained_example :
    ((outcome_type_of micros measurement ≡ successful) ↔ (
      (measurement.execution_failed ≡ false)
      × ((micros.le
              (micros.decimal 2 1)
              (micros.sub measurement.coverage_after measurement.coverage_before)
            ≡ true)
          ⊎ (1 ≤ gap_reduction micros measurement)
          ⊎ (5 ≤ accepted_delta micros measurement)
          ⊎ (1 ≤ independent_delta micros measurement))))
    × ((outcome_type_of micros measurement ≡ failed) ↔ (
        (measurement.execution_failed ≡ true)
        ⊎ ((useful_result micros measurement ≡ false)
            × (clip measurement.tokens_used ≡ 0)
            × (clip measurement.tokens_reserved ≡ 0))))
outcome_explained_example = outcome_explained micros measurement refl
