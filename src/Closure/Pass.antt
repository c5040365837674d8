-- ===== src/Closure/Pass.antt =====
-- `run_closure_feedback_completeness_pass` of
-- apps/api/app/domain/closure_feedback_completeness_pass.py.
pub mod Laws
use deep_research_agent.Common.{
  ℕ, Bool, true, false, Option, none, some, List, [], ◌∷◌, ◌++◌, String, string_eq, if◌then◌else◌,
  Result, ok, raise, ◌>>=◌,
}
use deep_research_agent.Common.Dict.{get}
use deep_research_agent.Common.Uuids.{Uuids}
use deep_research_agent.Closure.Data.{is_closed, GapRequirement, ClosureError, badly_formed_uuid}
use deep_research_agent.Closure.Alignment.{EvidenceAlignmentStatus}
use deep_research_agent.Closure.Feedback.{ClosureFeedback}
use deep_research_agent.Closure.Completeness.{generate_completeness_feedback, alignment_status_of}

pub data FeedbackCompletenessPassStatus : Type 0 where
  generated skipped complete : FeedbackCompletenessPassStatus

pub record GapCompletenessVerdict : Type 0 where
  pub gap_id : ℕ
  pub status : FeedbackCompletenessPassStatus
  pub reason : String
  pub feedback_id : Option ℕ

pub record FeedbackCompletenessPassResult (F : Type 0) : Type 0 where
  pub status : FeedbackCompletenessPassStatus
  pub generated_feedbacks : List (ClosureFeedback F)
  pub skipped_existing : List ℕ
  pub skipped_closed : List ℕ
  pub violations : List ℕ
  pub verdicts : List GapCompletenessVerdict

-- the lists that the loop appends to
pub record Collected (F : Type 0) : Type 0 where
  pub generated : List (ClosureFeedback F)
  pub skipped_existing : List ℕ
  pub skipped_closed : List ℕ
  pub violations : List ℕ
  pub verdicts : List GapCompletenessVerdict

abbrev pub nothing_collected : {F : Type 0} → Collected F
nothing_collected = record {
  generated = [];
  skipped_existing = [];
  skipped_closed = [];
  violations = [];
  verdicts = [];
}

abbrev pub verdict : ℕ → FeedbackCompletenessPassStatus → String → Option ℕ → GapCompletenessVerdict
verdict gap_id status reason feedback_id = record {
  gap_id = gap_id;
  status = status;
  reason = reason;
  feedback_id = feedback_id;
}

abbrev pub or_badly_formed : Option ℕ → Result ClosureError ℕ
or_badly_formed none = raise badly_formed_uuid
or_badly_formed (some id) = ok id

-- `UUID(text)`
abbrev pub uuid_of : Uuids → String → Result ClosureError ℕ
uuid_of ids s = or_badly_formed (ids.parse s)

module _ {F : Type 0} where
  abbrev pub skip_closed : ℕ → Collected F → Collected F
  skip_closed gap_id c = record c {
    skipped_closed = c.skipped_closed ++ gap_id ∷ [];
    verdicts = c.verdicts ++ verdict gap_id skipped "closed_gap" none ∷ [];
  }

  abbrev pub skip_existing : ℕ → (feedback_id : ℕ) → Collected F → Collected F
  skip_existing gap_id feedback_id c = record c {
    skipped_existing = c.skipped_existing ++ gap_id ∷ [];
    verdicts = c.verdicts ++ verdict gap_id skipped "feedback_exists" (some feedback_id) ∷ [];
  }

  abbrev pub collect_feedback : ℕ → Option (ClosureFeedback F) → Collected F → Collected F
  collect_feedback gap_id none c = record c {
    violations = c.violations ++ gap_id ∷ [];
    verdicts = c.verdicts ++ verdict gap_id skipped "no_feedback_generated" none ∷ [];
  }
  collect_feedback gap_id (some f) c = record c {
    generated = c.generated ++ f ∷ [];
    violations = c.violations ++ gap_id ∷ [];
    verdicts =
        c.verdicts
        ++ verdict gap_id generated "completeness_feedback_generated" (some f.feedback_id) ∷ [];
  }

  abbrev pub pass_status : Collected F → FeedbackCompletenessPassStatus
  pass_status c = elim c.generated [
    | f ∷ fs ↦ generated
    | [] ↦ elim c.violations [ v ∷ vs ↦ skipped | [] ↦ complete ]
  ]

  unfoldable pub pass_result : Collected F → FeedbackCompletenessPassResult F
  pass_result c = record {
    status = pass_status c;
    generated_feedbacks = c.generated;
    skipped_existing = c.skipped_existing;
    skipped_closed = c.skipped_closed;
    violations = c.violations;
    verdicts = c.verdicts;
  }

module _ {F : Type 0} (ids : Uuids) (existing_feedback_ids_by_gap : List (String × String))
    (alignment_statuses : List (ℕ × EvidenceAlignmentStatus)) (now : Option ℕ) (clock : ℕ) where
  -- the rules 2 and 3 of the loop's body
  abbrev pub visit_open :
      GapRequirement F → Option String → Collected F → Result ClosureError (Collected F)
  visit_open r (some existing) c = do id ← uuid_of ids existing; ok (skip_existing r.gap_id id c)
  visit_open r none c = do
    feedback ←
        generate_completeness_feedback ids r (alignment_status_of alignment_statuses r.gap_id) now
          clock
    ok (collect_feedback r.gap_id feedback c)

  -- the body of the loop
  unfoldable pub visit : GapRequirement F → Collected F → Result ClosureError (Collected F)
  unfolding generate_completeness_feedback alignment_status_of get
  visit r c =
      if is_closed r.closure_status
      then ok (skip_closed r.gap_id c)
      else visit_open r (get (ids.show r.gap_id) existing_feedback_ids_by_gap) c

  unfoldable pub visit_all :
      List (GapRequirement F) → Collected F → Result ClosureError (Collected F)
  unfolding visit
  visit_all [] c = ok c
  visit_all (r ∷ rs) c = do next ← visit r c; visit_all rs next

  unfoldable pub run_closure_feedback_completeness_pass :
      List (GapRequirement F) → Result ClosureError (FeedbackCompletenessPassResult F)
  unfolding visit_all pass_result
  run_closure_feedback_completeness_pass requirements = do
    collected ← visit_all requirements nothing_collected
    ok (pass_result collected)
