-- ===== src/Closure/Examples.antt =====
-- A gap that wants two independent sources, and evidence of one.
use deep_research_agent.Common.{
  ℕ, ◌+◌, ◌≤◌, ◌≡◌, ◌↔◌, refl, true, false, not, none, some, List, [], ◌∷◌, ◌++◌, map, String,
  string_eq, nat_eqb, arith, any, contains, if◌then◌else◌, ok, raise, ◌>>=◌,
}
use deep_research_agent.Common.Micros.{micros}
use deep_research_agent.Common.Uuids.{stroke_ids}
use deep_research_agent.Common.Text.{is_blank}
use deep_research_agent.Common.Checks.{AllPass, run_checks}
use deep_research_agent.Closure.Data.{
  GapRequirement, ClosureSnapshot, independent_source, not_evaluated, opened, closed, is_closed,
  same_status, requirement_checks, gaps_do_not_match,
}
use deep_research_agent.Closure.Evaluation.{
  closure_rank, evaluate, requirement_is_satisfied, has_progress, or_time,
}
use deep_research_agent.Closure.Alignment.{
  EvidenceAlignment, EvidenceFacts, EvidenceAlignmentStatus, missing_independent_source,
  ClosureEvaluationContext, evaluate_alignment, is_aligned,
}
use deep_research_agent.Closure.Alignment.Laws.{Meets, evaluate_alignment_total}
use deep_research_agent.Closure.Evaluator.{
  ClosureEvaluationExecution, evaluate_closure, execution_of, projected_snapshot, settle,
}
use deep_research_agent.Closure.Evaluator.Laws.{
  IsValid, assessed_of, settled_of, moved, evaluate_closure_total,
}
use deep_research_agent.Closure.Evaluator.Outcomes.{
  is_transition, closed_as_missing_source, closure_never_moves_back, closes_iff_satisfied,
  events_show_transition,
}
use deep_research_agent.Closure.Feedback.{ClosureFeedback, generate_feedback, check_feedback}
use deep_research_agent.Closure.Completeness.{
  complete_feedback_gaps, missing_feedback_requirements, feedback_completeness_violations,
  completeness_feedback_of, feedback_id_by_gap, backfill,
}
use deep_research_agent.Closure.Completeness.Laws.{
  complete_feedback_gaps_exact, complete_feedback_gaps_completes,
}
use deep_research_agent.Closure.Completeness.Total.{complete_feedback_gaps_total}
use deep_research_agent.Closure.Pass.{run_closure_feedback_completeness_pass}
use deep_research_agent.Closure.Pass.Laws.{pass_agrees}
use deep_research_agent.Closure.Dispatcher.{FeedbackDispatchResult, created, dispatch}
use deep_research_agent.Closure.Dispatcher.Laws.{IsTraced, dispatch_total}
use deep_research_agent.Closure.Handoff.{open_gap_is_followed_up}

abbrev pub gap : GapRequirement ℕ
gap = record {
  gap_id = 7;
  run_id = 1;
  question_id = "q1";
  dimension_key = "pricing";
  requirement_type = independent_source;
  criterion = "two sources";
  required_evidence_count = 1;
  required_independent_sources = 2;
  current_evidence_count = 0;
  current_independent_sources = 0;
  verification_status = not_evaluated;
  closure_status = opened;
  created_at = 10;
  updated_at = 10;
  state_version = 1;
  current_coverage = 0;
  required_coverage = none;
  transition_reason = "created";
  plan_version = 1;
  migration_source = "none";
}

abbrev before : ClosureSnapshot ℕ
before = record {
  coverage = 0;
  evidence_count = 0;
  independent_sources = 0;
  verification_status = not_evaluated;
}

abbrev evidence : EvidenceFacts
evidence = record {
  evidence_id = 3;
  evidence_dimension_key = some "pricing";
  evidence_quality_passed = true;
  independent_source_count = 1;
  claim_verified = false;
  state_version = none;
  created_at = none;
}

abbrev context : ClosureEvaluationContext ℕ
context = record {
  gap_id = 7;
  before_snapshot = before;
  evidence_alignments = [];
  new_evidence_count = 1;
  aligned_evidence_count = 0;
  partial_evidence_count = 1;
  independent_source_count = 1;
}

gap-IsValid : IsValid micros context gap
gap-IsValid = record { requirement_passes = ground arith; coverage_in_unit = refl }

-- the gap once it is closed
abbrev pub settled_gap : GapRequirement ℕ
settled_gap = record gap { closure_status = closed }

settled_gap-IsValid : IsValid micros context settled_gap
settled_gap-IsValid = record { requirement_passes = ground arith; coverage_in_unit = refl }

abbrev execution : ClosureEvaluationExecution ℕ
execution = execution_of micros context gap 5 100 (assessed_of micros context gap 6 100)

execution_runs : evaluate_closure micros context gap none 100 5 6 ≡ ok execution
execution_runs = evaluate_closure_total micros context gap none 100 5 6 gap-IsValid

stays_open : is_closed execution.requirement.closure_status ≡ false
unfolding execution_of assessed_of settled_of moved settle evaluate requirement_is_satisfied
    has_progress projected_snapshot
stays_open = refl

pub pricing_is_named : is_blank gap.dimension_key ≡ false
unfolding is_blank
pricing_is_named = refl

-- the feedback that the completion adds for the gap
abbrev added : ClosureFeedback ℕ
added = completeness_feedback_of stroke_ids gap EvidenceAlignmentStatus.unknown 100

gap_is_completed :
    complete_feedback_gaps stroke_ids (gap ∷ settled_gap ∷ []) [] [] none 100 ≡ ok (added ∷ [])
unfolding complete_feedback_gaps missing_feedback_requirements feedback_id_by_gap backfill
    completeness_feedback_of check_feedback run_checks is_blank
gap_is_completed = refl

evaluate_closure_total_example : evaluate_closure micros context gap none 100 5 6 ≡ (
    if nat_eqb context.gap_id gap.gap_id
    then ok (
        execution_of micros context gap 5
          (or_time none 100)
          (assessed_of micros context gap 6 (or_time none 100)))
    else raise gaps_do_not_match)
evaluate_closure_total_example = evaluate_closure_total micros context gap none 100 5 6 gap-IsValid

closure_never_moves_back_example :
    (closure_rank gap.closure_status ≤ closure_rank execution.requirement.closure_status)
    × (execution.requirement.state_version ≡ (
        if same_status execution.requirement.closure_status gap.closure_status
        then gap.state_version
        else gap.state_version + 1))
    × (execution.requirement.gap_id ≡ gap.gap_id)
    × (execution.requirement.run_id ≡ gap.run_id)
    × (execution.requirement.question_id ≡ gap.question_id)
    × (execution.requirement.dimension_key ≡ gap.dimension_key)
    × (execution.requirement.required_independent_sources ≡ gap.required_independent_sources)
    × (execution.requirement.required_evidence_count ≡ gap.required_evidence_count)
    × (execution.requirement.required_coverage ≡ gap.required_coverage)
    × AllPass (requirement_checks micros execution.requirement)
closure_never_moves_back_example =
    closure_never_moves_back micros context gap none 100 5 6 execution gap-IsValid execution_runs

closes_iff_satisfied_example :
    (execution.requirement.closure_status ≡ closed)
    ↔ (requirement_is_satisfied micros gap (projected_snapshot micros context gap) ≡ true)
closes_iff_satisfied_example =
    closes_iff_satisfied micros context gap none 100 5 6 execution gap-IsValid execution_runs refl

events_show_transition_example :
    (any is_transition execution.events
      ≡ not (same_status execution.requirement.closure_status gap.closure_status))
    × ((execution.result.remaining_requirements ≡ [])
        ↔ (execution.requirement.closure_status ≡ closed))
    × (execution.result.before_status ≡ gap.closure_status)
    × (execution.result.after_status ≡ execution.requirement.closure_status)
    × (execution.result.state_version ≡ execution.requirement.state_version)
events_show_transition_example =
    events_show_transition micros context gap none 100 5 6 execution gap-IsValid execution_runs

evaluate_alignment_total_example :
    (a : EvidenceAlignment) × (evaluate_alignment 9 100 gap evidence ≡ ok a)
    × (a.gap_id ≡ gap.gap_id)
    × (a.satisfies_requirement ≡ is_aligned a.alignment_status)
    × ((a.satisfies_requirement ≡ true) ↔ (
        (evidence.evidence_dimension_key ≡ some gap.dimension_key)
        × (evidence.evidence_quality_passed ≡ true)
        × Meets gap.requirement_type gap evidence))
    × ((a.satisfies_requirement ≡ true) ↔ (a.rejection_reason ≡ none))
evaluate_alignment_total_example = evaluate_alignment_total 9 100 gap evidence (omega arith)

complete_feedback_gaps_exact_example :
    map (λ f. f.gap_id) (added ∷ [])
    ≡ map (λ r. r.gap_id) (missing_feedback_requirements stroke_ids (gap ∷ settled_gap ∷ []) [])
complete_feedback_gaps_exact_example =
    complete_feedback_gaps_exact stroke_ids [] none 100 (gap ∷ settled_gap ∷ []) [] (added ∷ [])
      gap_is_completed

complete_feedback_gaps_completes_example :
    (feedback_completeness_violations stroke_ids (gap ∷ settled_gap ∷ []) ([] ++ (added ∷ [])) ≡ [])
    × (complete_feedback_gaps stroke_ids (gap ∷ settled_gap ∷ []) ([] ++ (added ∷ [])) [] none 100
        ≡ ok [])
complete_feedback_gaps_completes_example =
    complete_feedback_gaps_completes stroke_ids (gap ∷ settled_gap ∷ []) [] (added ∷ []) [] none 100
      gap_is_completed

complete_feedback_gaps_total_example :
    (added : List (ClosureFeedback ℕ)) × (complete_feedback_gaps stroke_ids
        (gap ∷ settled_gap ∷ [])
        []
        []
        none
        100
      ≡ ok added)
complete_feedback_gaps_total_example =
    complete_feedback_gaps_total stroke_ids [] none 100 (gap ∷ settled_gap ∷ []) []
      (pricing_is_named, (pricing_is_named, tt))

pass_agrees_example :
    (run_closure_feedback_completeness_pass stroke_ids
        (feedback_id_by_gap stroke_ids (added ∷ []))
        []
        none
        100
        (gap ∷ settled_gap ∷ [])
      >>= λ result. ok result.generated_feedbacks)
    ≡ complete_feedback_gaps stroke_ids (gap ∷ settled_gap ∷ []) (added ∷ []) [] none 100
pass_agrees_example = pass_agrees stroke_ids (gap ∷ settled_gap ∷ []) (added ∷ []) [] none 100

dispatch_total_example :
    (d : FeedbackDispatchResult) × (dispatch stroke_ids [] none 100 added gap [] ≡ ok d)
    × ((d.dispatch_status ≡ created) ↔ (
        (is_closed gap.closure_status ≡ false)
        × (added.gap_id ≡ gap.gap_id)
        × (contains (stroke_ids.show added.feedback_id) [] ≡ false)))
    × IsTraced d.dispatch_status added gap d.research_needs d.suggested_actions
dispatch_total_example = dispatch_total stroke_ids none 100 [] added gap []

open_gap_is_followed_up_example :
    (f : ClosureFeedback ℕ) × (generate_feedback stroke_ids execution none 100 ≡ ok (f ∷ []))
    × (f.gap_id ≡ gap.gap_id)
    × (f.previous_status ≡ gap.closure_status)
    × (f.current_status ≡ execution.requirement.closure_status)
    × ((already : List String) (alignments : List EvidenceAlignment)
        → contains (stroke_ids.show f.feedback_id) already ≡ false
        → (d : FeedbackDispatchResult) × (dispatch stroke_ids already none 100 f
              execution.requirement alignments
            ≡ ok d)
          × (d.dispatch_status ≡ created))
open_gap_is_followed_up_example =
    open_gap_is_followed_up micros stroke_ids context gap none 100 5 6 execution gap-IsValid
      pricing_is_named execution_runs stays_open

-- an alignment that was rejected before a second source was found, and the context with both sources
abbrev rejected : EvidenceAlignment
rejected = record {
  alignment_id = 1;
  evidence_id = 3;
  gap_id = 7;
  question_id = "q1";
  dimension_key = "pricing";
  requirement_type = independent_source;
  satisfies_requirement = false;
  alignment_status = EvidenceAlignmentStatus.partial;
  rejection_reason = some missing_independent_source;
  created_at = 10;
  state_version = 1;
  extraction_id = none;
  reader_execution_id = none;
  alignment_request_id = none;
}

abbrev full_context : ClosureEvaluationContext ℕ
full_context = record context {
  evidence_alignments = rejected ∷ [];
  aligned_evidence_count = 1;
  independent_source_count = 2;
}

full_context-IsValid : IsValid micros full_context gap
full_context-IsValid = record { requirement_passes = ground arith; coverage_in_unit = refl }

abbrev closing : ClosureEvaluationExecution ℕ
closing = execution_of micros full_context gap 5 100 (assessed_of micros full_context gap 6 100)

closing_runs : evaluate_closure micros full_context gap none 100 5 6 ≡ ok closing
closing_runs = evaluate_closure_total micros full_context gap none 100 5 6 full_context-IsValid

two_sources_satisfy :
    requirement_is_satisfied micros gap (projected_snapshot micros full_context gap) ≡ true
unfolding requirement_is_satisfied projected_snapshot
two_sources_satisfy = refl

closed_as_missing_source_example :
    (closing.requirement.closure_status ≡ closed)
    × (closing.result.transition_reason ≡ "missing_independent_source")
    × (closing.result.remaining_requirements ≡ [])
closed_as_missing_source_example =
    closed_as_missing_source micros full_context gap none 100 5 6 closing full_context-IsValid
      closing_runs refl two_sources_satisfy refl
