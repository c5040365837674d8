-- ===== src/Closure/Completeness/Total.antt =====
-- When the completion of feedback raises nothing.
use deep_research_agent.Common.{
  ℕ, ◌≡◌, refl, inl, inr, Bool-cases, false, Option, none, some, List, [], ◌∷◌, String, keep_if,
  All, ok,
}
use deep_research_agent.Common.Dict.{keys}
use deep_research_agent.Common.Text.{is_blank}
use deep_research_agent.Common.Uuids.{Uuids}
use deep_research_agent.Common.Checks.{run_checks}
use deep_research_agent.Closure.Data.{is_closed, GapRequirement}
use deep_research_agent.Closure.Evaluation.{or_time}
use deep_research_agent.Closure.Alignment.{EvidenceAlignmentStatus}
use deep_research_agent.Closure.Feedback.{
  ClosureFeedback, missing_requirement_of, ClosureFeedbackReason, check_feedback,
  missing_independent_source, claim_not_verified, insufficient_evidence, evidence_quality_low,
  dimension_mismatch, no_valid_path, unexplained,
}
use deep_research_agent.Closure.Completeness.{
  add_if_given, is_uncovered, feedback_id_by_gap, alignment_status_of, backfill,
  generate_completeness_feedback, completeness_feedback_of, derive_feedback_reason,
  complete_feedback_gaps, missing_feedback_requirements,
}

missing_requirement_not_blank :
    (reason : ClosureFeedbackReason) (key : String)
    → is_blank key ≡ false
    → is_blank (missing_requirement_of reason [] key) ≡ false
unfolding is_blank
missing_requirement_not_blank missing_independent_source key h = refl
missing_requirement_not_blank claim_not_verified key h = refl
missing_requirement_not_blank insufficient_evidence key h = h
missing_requirement_not_blank evidence_quality_low key h = h
missing_requirement_not_blank dimension_mismatch key h = h
missing_requirement_not_blank no_valid_path key h = h
missing_requirement_not_blank unexplained key h = h

module _ {F : Type 0} (ids : Uuids) (statuses : List (ℕ × EvidenceAlignmentStatus)) (now : Option ℕ)
    (clock : ℕ) where
  pub completeness_feedback_passes :
      (r : GapRequirement F) (s : EvidenceAlignmentStatus) (timestamp : ℕ)
      → is_blank r.dimension_key ≡ false
      → check_feedback (completeness_feedback_of ids r s timestamp)
        ≡ ok (completeness_feedback_of ids r s timestamp)
  unfolding check_feedback run_checks completeness_feedback_of
  completeness_feedback_passes r s timestamp h =
      rw (missing_requirement_not_blank (derive_feedback_reason r s) r.dimension_key h) refl

  pub generates :
      (r : GapRequirement F) (s : EvidenceAlignmentStatus)
      → is_blank r.dimension_key ≡ false
      → (o : Option (ClosureFeedback F)) × (generate_completeness_feedback ids r s now clock ≡ ok o)
  unfolding generate_completeness_feedback
  generates r s h =
      let passes = completeness_feedback_passes r s (or_time now clock) h in
      elim (Bool-cases (is_closed r.closure_status)) [
        | inl e ↦ (none, rw e refl)
        | inr e ↦
            (some (completeness_feedback_of ids r s (or_time now clock)), simp (e, passes) refl)
      ]

  backfill_total :
      (rs : List (GapRequirement F))
      → All (λ r. is_blank r.dimension_key ≡ false) rs
      → (g : List (ClosureFeedback F)) × (backfill ids statuses now clock rs ≡ ok g)
  unfolding backfill
  backfill_total [] h = ([], refl)
  backfill_total (r ∷ rs) h =
      let (o, e) = generates r (alignment_status_of statuses r.gap_id) h.0 in
      let (rest, e2) = backfill_total rs h.1 in (add_if_given o rest, rw (e, e2) refl)

  keep_named :
      (covered : List String) (rs : List (GapRequirement F))
      → All (λ r. is_blank r.dimension_key ≡ false) rs
      → All (λ r. is_blank r.dimension_key ≡ false) (keep_if (is_uncovered ids covered) rs)
  keep_named covered [] h = tt
  keep_named covered (r ∷ rs) h = elim (Bool-cases (is_uncovered ids covered r)) [
    | inl e ↦ rw e (h.0, keep_named covered rs h.1)
    | inr e ↦ rw e (keep_named covered rs h.1)
  ]

  -- If no gap has a blank dimension key, the completion returns its feedback.
  pub complete_feedback_gaps_total :
      (requirements : List (GapRequirement F)) (existing : List (ClosureFeedback F))
      → All (λ r. is_blank r.dimension_key ≡ false) requirements
      → (added : List (ClosureFeedback F)) × (complete_feedback_gaps ids requirements existing
            statuses now clock
          ≡ ok added)
  unfolding complete_feedback_gaps missing_feedback_requirements
  complete_feedback_gaps_total requirements existing h =
      backfill_total _ (keep_named (keys (feedback_id_by_gap ids existing)) requirements h)
