-- ===== src/Closure/Finalizer.antt =====
-- apps/api/app/domain/run_closure_feedback_finalizer.py: the last look at the gaps of a run.
pub mod Explained
pub mod Laws
pub mod Loop
pub mod Total
pub mod Examples
use deep_research_agent.Common.{
  ℕ, Bool, true, false, ◌||◌, Option, none, some, List, [], ◌∷◌, ◌++◌, String, string_eq, ◌==◌,
  if◌then◌else◌, Result, ok, raise, ◌>>=◌,
}
use deep_research_agent.Common.Dict.{get}
use deep_research_agent.Common.Text.{ends_with}
use deep_research_agent.Common.Uuids.{Uuids}
use deep_research_agent.Closure.Data.{GapClosureStatus, is_closed, GapRequirement, ClosureError}
use deep_research_agent.Closure.Alignment.{EvidenceAlignmentStatus}
use deep_research_agent.Closure.Feedback.{ClosureFeedback}
use deep_research_agent.Closure.Completeness.{generate_completeness_feedback, alignment_status_of}
use deep_research_agent.Closure.Pass.{uuid_of}

-- `RunClosureFeedbackFinalizationStatus`; `BLOCKED` is `finalization_blocked`
pub data RunClosureFeedbackFinalizationStatus : Type 0 where
  completed generated finalization_blocked : RunClosureFeedbackFinalizationStatus

pub data GapFinalizationAction : Type 0 where
  existing_complete existing_feedback generated_feedback terminal blocked : GapFinalizationAction

-- `is_terminal_run_stop_reason`
unfoldable pub is_terminal_run_stop_reason : Option String → Bool
unfolding ends_with
is_terminal_run_stop_reason none = false
is_terminal_run_stop_reason (some reason) =
    if reason == ""
    then false
    else reason == "cancelled" || reason == "user_stopped" || ends_with reason "_exhausted"

pub record GapFinalizationVerdict : Type 0 where
  pub gap_id : ℕ
  pub closure_status : GapClosureStatus
  pub feedback_exists : Bool
  pub terminal_reason : Option String
  pub action : GapFinalizationAction
  pub feedback_id : Option ℕ

pub record RunClosureFeedbackFinalizationResult (F : Type 0) : Type 0 where
  pub run_id : ℕ
  pub status : RunClosureFeedbackFinalizationStatus
  pub generated_feedbacks : List (ClosureFeedback F)
  pub existing_feedbacks : List ℕ
  pub terminal_gaps : List ℕ
  pub blocked_gaps : List ℕ
  pub violations : List ℕ
  pub verdicts : List GapFinalizationVerdict

-- the lists that the loop appends to
pub record Findings (F : Type 0) : Type 0 where
  pub generated_feedbacks : List (ClosureFeedback F)
  pub existing_feedbacks : List ℕ
  pub terminal_gaps : List ℕ
  pub blocked_gaps : List ℕ
  pub violations : List ℕ
  pub verdicts : List GapFinalizationVerdict

abbrev pub no_findings : {F : Type 0} → Findings F
no_findings = record {
  generated_feedbacks = [];
  existing_feedbacks = [];
  terminal_gaps = [];
  blocked_gaps = [];
  violations = [];
  verdicts = [];
}

module _ {F : Type 0} where
  abbrev pub finalized :
      GapRequirement F
      → Bool
      → Option String
      → GapFinalizationAction
      → Option ℕ
      → GapFinalizationVerdict
  finalized r feedback_exists terminal_reason action feedback_id = record {
    gap_id = r.gap_id;
    closure_status = r.closure_status;
    feedback_exists = feedback_exists;
    terminal_reason = terminal_reason;
    action = action;
    feedback_id = feedback_id;
  }

  abbrev pub keep_closed : GapRequirement F → Findings F → Findings F
  keep_closed r c = record c {
    verdicts = c.verdicts ++ finalized r false none existing_complete none ∷ [];
  }

  abbrev pub keep_existing : GapRequirement F → (feedback_id : ℕ) → Findings F → Findings F
  keep_existing r feedback_id c = record c {
    existing_feedbacks = c.existing_feedbacks ++ r.gap_id ∷ [];
    verdicts = c.verdicts ++ finalized r true none existing_feedback (some feedback_id) ∷ [];
  }

  abbrev pub keep_terminal : GapRequirement F → (reason : String) → Findings F → Findings F
  keep_terminal r reason c = record c {
    terminal_gaps = c.terminal_gaps ++ r.gap_id ∷ [];
    verdicts = c.verdicts ++ finalized r false (some reason) terminal none ∷ [];
  }

  abbrev pub add_generated : GapRequirement F → Option (ClosureFeedback F) → Findings F → Findings F
  add_generated r none c = record c {
    blocked_gaps = c.blocked_gaps ++ r.gap_id ∷ [];
    violations = c.violations ++ r.gap_id ∷ [];
    verdicts = c.verdicts ++ finalized r false none blocked none ∷ [];
  }
  add_generated r (some f) c = record c {
    generated_feedbacks = c.generated_feedbacks ++ f ∷ [];
    violations = c.violations ++ r.gap_id ∷ [];
    verdicts = c.verdicts ++ finalized r false none generated_feedback (some f.feedback_id) ∷ [];
  }

  abbrev pub finalization_status : Findings F → RunClosureFeedbackFinalizationStatus
  finalization_status c = elim c.blocked_gaps [
    | g ∷ gs ↦ finalization_blocked
    | [] ↦ elim c.generated_feedbacks [ f ∷ fs ↦ generated | [] ↦ completed ]
  ]

  unfoldable pub finalization_result :
      (run_id : ℕ) → Findings F → RunClosureFeedbackFinalizationResult F
  finalization_result run_id c = record {
    run_id = run_id;
    status = finalization_status c;
    generated_feedbacks = c.generated_feedbacks;
    existing_feedbacks = c.existing_feedbacks;
    terminal_gaps = c.terminal_gaps;
    blocked_gaps = c.blocked_gaps;
    violations = c.violations;
    verdicts = c.verdicts;
  }

module _ {F : Type 0} (ids : Uuids)
    (existing_feedback_ids_by_gap terminal_reasons : List (String × String))
    (alignment_statuses : List (ℕ × EvidenceAlignmentStatus)) (now : Option ℕ) (clock : ℕ) where
  -- the rules 4 and 5
  abbrev pub finalize_unfed :
      GapRequirement F → Option String → Findings F → Result ClosureError (Findings F)
  finalize_unfed r (some reason) c = ok (keep_terminal r reason c)
  finalize_unfed r none c = do
    feedback ←
        generate_completeness_feedback ids r (alignment_status_of alignment_statuses r.gap_id) now
          clock
    ok (add_generated r feedback c)

  -- the rule 2
  abbrev pub finalize_open :
      GapRequirement F → Option String → Findings F → Result ClosureError (Findings F)
  finalize_open r (some existing) c = do id ← uuid_of ids existing; ok (keep_existing r id c)
  finalize_open r none c = finalize_unfed r (get (ids.show r.gap_id) terminal_reasons) c

  -- the body of the loop
  unfoldable pub finalize_gap : GapRequirement F → Findings F → Result ClosureError (Findings F)
  unfolding get generate_completeness_feedback alignment_status_of
  finalize_gap r c =
      if is_closed r.closure_status
      then ok (keep_closed r c)
      else finalize_open r (get (ids.show r.gap_id) existing_feedback_ids_by_gap) c

  unfoldable pub finalize_all :
      List (GapRequirement F) → Findings F → Result ClosureError (Findings F)
  unfolding finalize_gap
  finalize_all [] c = ok c
  finalize_all (r ∷ rs) c = do next ← finalize_gap r c; finalize_all rs next

  unfoldable pub finalize_run_closure_feedback :
      (run_id : ℕ)
      → List (GapRequirement F)
      → Result ClosureError (RunClosureFeedbackFinalizationResult F)
  unfolding finalize_all finalization_result
  finalize_run_closure_feedback run_id requirements = do
    findings ← finalize_all requirements no_findings
    ok (finalization_result run_id findings)
