-- ===== src/Closure/Completeness/Report.antt =====
-- `check_feedback_completeness` of apps/api/app/domain/closure_feedback_completeness.py.
use deep_research_agent.Common.{
  ◌≡◌, refl, inl, inr, Bool, Bool-cases, Option-cases, true, false, not, Option, none, some, List,
  [], ◌∷◌, String, string_eq, keep_if, map, contains, if◌then◌else◌,
}
use deep_research_agent.Common.Dict.{get, keys}
use deep_research_agent.Common.Uuids.{Uuids}
use deep_research_agent.Closure.Data.{is_closed, GapRequirement}
use deep_research_agent.Closure.Feedback.{ClosureFeedback}
use deep_research_agent.Closure.Completeness.{
  feedback_id_by_gap, is_uncovered, feedback_completeness_violations,
}
use deep_research_agent.Closure.Pass.Laws.{get_of_contains, found_of_contains}

pub record GapFeedbackCompleteness : Type 0 where
  pub gap_id : String
  pub has_feedback : Bool
  pub feedback_id : Option String
  pub missing_reason : Option String

-- `MISSING_FEEDBACK_REASON`
abbrev pub missing_feedback_reason : String
missing_feedback_reason = "NO_CLOSURE_FEEDBACK"

abbrev pub completeness_record : String → Option String → GapFeedbackCompleteness
completeness_record key (some known) = record {
  gap_id = key;
  has_feedback = true;
  feedback_id = some known;
  missing_reason = none;
}
completeness_record key none = record {
  gap_id = key;
  has_feedback = false;
  feedback_id = none;
  missing_reason = some missing_feedback_reason;
}

-- the gaps that the records report without feedback
abbrev reported : List GapFeedbackCompleteness → List String
reported xs = map (λ x. x.gap_id) (keep_if (λ x. not x.has_feedback) xs)

reported_one :
    (key : String) (known : List (String × String)) (xs : List GapFeedbackCompleteness)
    → reported (completeness_record key (get key known) ∷ xs)
      ≡ (if contains key (keys known) then reported xs else key ∷ reported xs)
reported_one key known xs = elim (Bool-cases (contains key (keys known))) [
  | inl e ↦ elim (Option-cases (get key known)) [
    | inl n ↦ absurd (found_of_contains key known e n)
    | inr (v, g) ↦ rw (g, e) refl
  ]
  | inr e ↦ rw (get_of_contains key known e, e) refl
]

module _ {F : Type 0} (ids : Uuids) where
  -- the loop
  abbrev pub completeness_records :
      List (String × String) → List (GapRequirement F) → List GapFeedbackCompleteness
  completeness_records known [] = []
  completeness_records known (r ∷ rs) =
      let rest = completeness_records known rs in
      let key = ids.show r.gap_id in
      if is_closed r.closure_status then rest else completeness_record key (get key known) ∷ rest

  unfoldable pub check_feedback_completeness :
      List (GapRequirement F) → List (ClosureFeedback F) → List GapFeedbackCompleteness
  unfolding feedback_id_by_gap get
  check_feedback_completeness requirements feedbacks =
      completeness_records (feedback_id_by_gap ids feedbacks) requirements

  violations_in : List (String × String) → List (GapRequirement F) → List String
  violations_in known rs = map (λ r. ids.show r.gap_id) (keep_if (is_uncovered ids (keys known)) rs)

  reported_violations :
      (known : List (String × String)) (rs : List (GapRequirement F))
      → reported (completeness_records known rs) ≡ violations_in known rs
  unfolding violations_in
  reported_violations known [] = refl
  reported_violations known (r ∷ rs) =
      let ih = reported_violations known rs in
      let one = reported_one (ids.show r.gap_id) known (completeness_records known rs) in
      elim (Bool-cases (is_closed r.closure_status)) [
        | inl e ↦ rw e ih
        | inr e ↦ elim (Bool-cases (contains (ids.show r.gap_id) (keys known))) [
          | inl c ↦ rw (e, one, c) ih
          | inr c ↦ rw (e, one, c, ih) refl
        ]
      ]

  -- The gaps that are reported without feedback are the violations of completeness, in order.
  check_feedback_completeness_exact :
      (requirements : List (GapRequirement F)) (feedbacks : List (ClosureFeedback F))
      → map
          (λ x. x.gap_id)
          (keep_if (λ x. not x.has_feedback) (check_feedback_completeness requirements feedbacks))
        ≡ feedback_completeness_violations ids requirements feedbacks
  unfolding check_feedback_completeness feedback_completeness_violations violations_in
  check_feedback_completeness_exact requirements feedbacks =
      reported_violations (feedback_id_by_gap ids feedbacks) requirements
