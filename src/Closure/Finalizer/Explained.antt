-- ===== src/Closure/Finalizer/Explained.antt =====
-- When the gaps of a run are explained: what the finalizer has to say of each.
use deep_research_agent.Common.{
  ℕ, ◌≡◌, Bool, not, ◌&&◌, keep_if, true, false, Option, none, some, List, [], ◌∷◌, ◌++◌, map,
  String, string_eq, ok,
}
use deep_research_agent.Common.Dict.{get}
use deep_research_agent.Common.Uuids.{Uuids}
use deep_research_agent.Closure.Data.{closed, is_closed, GapRequirement}
use deep_research_agent.Closure.Alignment.{EvidenceAlignmentStatus, is_given}
use deep_research_agent.Closure.Completeness.Laws.{feedback_for}
use deep_research_agent.Closure.Feedback.{ClosureFeedback}
use deep_research_agent.Closure.Pass.{uuid_of}
use deep_research_agent.Closure.Finalizer.{
  GapFinalizationVerdict, GapFinalizationAction, existing_complete, existing_feedback,
  generated_feedback, terminal, blocked, Findings,
}

-- the gaps that pass the test, in order
abbrev pub gaps_that : {F : Type 0} → (GapRequirement F → Bool) → List (GapRequirement F) → List ℕ
gaps_that test rs = map (λ r. r.gap_id) (keep_if test rs)

module _ {F : Type 0} (ids : Uuids) (existing terminal_reasons : List (String × String))
    (statuses : List (ℕ × EvidenceAlignmentStatus)) (now : Option ℕ) (clock : ℕ) where
  -- a gap that is not closed and has feedback
  abbrev pub is_fed : GapRequirement F → Bool
  is_fed r = not (is_closed r.closure_status) && is_given (get (ids.show r.gap_id) existing)

  -- a gap that is not closed, has no feedback, and was given a reason
  abbrev pub is_ended : GapRequirement F → Bool
  is_ended r =
      not (is_closed r.closure_status)
      && not (is_given (get (ids.show r.gap_id) existing))
      && is_given (get (ids.show r.gap_id) terminal_reasons)

  -- a gap that is not closed, with neither feedback nor a reason
  abbrev pub is_unexplained : GapRequirement F → Bool
  is_unexplained r =
      not (is_closed r.closure_status)
      && not (is_given (get (ids.show r.gap_id) existing))
      && not (is_given (get (ids.show r.gap_id) terminal_reasons))

  -- the feedback that is generated for the gaps without an explanation
  abbrev pub feedback_of_unexplained : List (GapRequirement F) → List (ClosureFeedback F)
  feedback_of_unexplained rs = map (feedback_for ids statuses now clock) (keep_if is_unexplained rs)

  -- what the action of a verdict says of the gap, and which feedback or reason the verdict names
  abbrev Names :
      GapFinalizationAction
      → GapRequirement F
      → (feedback reason : Option String) → (feedback_exists : Bool) → (feedback_id : Option ℕ)
      → (terminal_reason : Option String) → Type 0
  Names existing_complete r feedback reason fed id why =
      (r.closure_status ≡ closed) × (fed ≡ false) × (id ≡ none) × (why ≡ none)
  Names existing_feedback r feedback reason fed id why =
      (is_fed r ≡ true)
      × (fed ≡ true)
      × (why ≡ none)
      × (text : String) × (feedback ≡ some text)
      × (n : ℕ) × (uuid_of ids text ≡ ok n)
      × (id ≡ some n)
  Names generated_feedback r feedback reason fed id why =
      (is_unexplained r ≡ true)
      × (fed ≡ false)
      × (why ≡ none)
      × (id ≡ some (feedback_for ids statuses now clock r).feedback_id)
  Names terminal r feedback reason fed id why =
      (is_ended r ≡ true) × (fed ≡ false) × (id ≡ none) × (why ≡ reason)
  Names blocked r feedback reason fed id why = ⊥

  -- the verdict `v` explains the gap of the requirement `r`
  abbrev pub Explains : GapRequirement F → GapFinalizationVerdict → Type 0
  Explains r v =
      (v.gap_id ≡ r.gap_id)
      × (v.closure_status ≡ r.closure_status)
      × Names v.action r (get (ids.show r.gap_id) existing)
          (get (ids.show r.gap_id) terminal_reasons) v.feedback_exists v.feedback_id
          v.terminal_reason

  -- one verdict for each requirement, in their order
  abbrev pub AllExplain : List (GapRequirement F) → List GapFinalizationVerdict → Type 0
  AllExplain [] [] = Unit
  AllExplain [] (v ∷ vs) = ⊥
  AllExplain (r ∷ rs) [] = ⊥
  AllExplain (r ∷ rs) (v ∷ vs) = Explains r v × AllExplain rs vs

  -- what the loop over the requirements adds to the findings
  pub record Adds (rs : List (GapRequirement F)) (c d : Findings F) : Type 0 where
    pub none_blocked : d.blocked_gaps ≡ c.blocked_gaps
    pub given : d.generated_feedbacks ≡ c.generated_feedbacks ++ feedback_of_unexplained rs
    pub fed : d.existing_feedbacks ≡ c.existing_feedbacks ++ gaps_that is_fed rs
    pub ended : d.terminal_gaps ≡ c.terminal_gaps ++ gaps_that is_ended rs
    pub violating : d.violations ≡ c.violations ++ gaps_that is_unexplained rs
    pub explained :
        (vs : List GapFinalizationVerdict) × (d.verdicts ≡ c.verdicts ++ vs) × AllExplain rs vs
