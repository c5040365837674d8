-- ===== src/Closure/Alignment/Laws.antt =====
-- What the evaluation of an alignment, and the summary of several, promise.
use deep_research_agent.Common.{
  ℕ, ◌+◌, ◌≡◌, ◌≤◌, ◌↔◌, refl, true, false, Option, none, some, List, [], ◌∷◌, arith, String,
  string_eq, length, ok,
}
use deep_research_agent.Common.Checks.{run_checks-AllPass, AllPass}
use deep_research_agent.Closure.Data.{
  GapRequirementType, dimension_coverage, independent_source, claim_verification, evidence_quality,
  GapRequirement,
}
use deep_research_agent.Closure.Alignment.{
  EvidenceAlignment, EvidenceFacts, classify_evidence, evaluate_alignment, alignment_of,
  check_alignment, alignment_checks, is_aligned, is_partial, is_not_aligned, is_unknown,
  count_status, relevant_to, summarize_alignments, is_other, is_given,
}

-- what a requirement asks of the evidence about it, by its type
abbrev pub Meets : {F : Type 0} → GapRequirementType → GapRequirement F → EvidenceFacts → Type 0
Meets dimension_coverage r e = Unit
Meets independent_source r e = r.required_independent_sources ≤ e.independent_source_count
Meets claim_verification r e = r.required_independent_sources ≤ e.independent_source_count
Meets evidence_quality r e = e.claim_verified ≡ true

counted :
    (items : List EvidenceAlignment)
    → count_status is_aligned items
        + count_status is_partial items
        + count_status is_not_aligned items
        + count_status is_unknown items
      ≡ length items
counted [] = refl
counted (a ∷ items) = ground (arith, counted items)

given_iff : {A : Type 0} (o : Option A) → (is_given o ≡ false) ↔ (o ≡ none)
given_iff none = ground arith
given_iff (some a) = ground arith

other_iff : (o : Option String) (key : String) → (is_other o key ≡ false) ↔ (o ≡ some key)
other_iff none key = ground arith
other_iff (some k) key = ground (arith, string_eq.same_iff k key)

module _ {F : Type 0} where
  classify_consistent :
      (r : GapRequirement F) (e : EvidenceFacts)
      → ((is_aligned (classify_evidence r e).status ≡ true)
          ↔ (is_given (classify_evidence r e).reason ≡ false))
        × ((is_aligned (classify_evidence r e).status ≡ true) ↔ (
            (e.evidence_dimension_key ≡ some r.dimension_key)
            × (e.evidence_quality_passed ≡ true)
            × Meets r.requirement_type r e))
  unfolding classify_evidence
  classify_consistent r e = ground (arith, other_iff e.evidence_dimension_key r.dimension_key)

  alignment_passes :
      (id clock : ℕ) (r : GapRequirement F) (e : EvidenceFacts)
      → 1 ≤ r.state_version
      → AllPass (alignment_checks (alignment_of id clock r e))
  unfolding alignment_of
  alignment_passes id clock r e h = ground (arith, h, classify_consistent r e)

  -- With a positive version the evaluation returns an alignment, which satisfies the requirement exactly
  -- when the evidence is about its dimension, has passed the quality check, and meets what the
  -- requirement asks by its type; a reason is given exactly when it does not.
  pub evaluate_alignment_total :
      (id clock : ℕ) (r : GapRequirement F) (e : EvidenceFacts)
      → 1 ≤ r.state_version
      → (a : EvidenceAlignment) × (evaluate_alignment id clock r e ≡ ok a)
        × (a.gap_id ≡ r.gap_id)
        × (a.satisfies_requirement ≡ is_aligned a.alignment_status)
        × ((a.satisfies_requirement ≡ true) ↔ (
            (e.evidence_dimension_key ≡ some r.dimension_key)
            × (e.evidence_quality_passed ≡ true)
            × Meets r.requirement_type r e))
        × ((a.satisfies_requirement ≡ true) ↔ (a.rejection_reason ≡ none))
  unfolding evaluate_alignment check_alignment alignment_of
  evaluate_alignment_total id clock r e h =
      let v = classify_consistent r e in
      (
        alignment_of id clock r e,
        run_checks-AllPass (alignment_checks (alignment_of id clock r e))
            (alignment_of id clock r e) (alignment_passes id clock r e h),
        refl,
        refl,
        v.1,
        ground (arith, v.0, given_iff (classify_evidence r e).reason),
      )

  -- The four counts of a summary add up to the number of alignments of the gap.
  pub summary_partitions :
      (r : GapRequirement F) (items : List EvidenceAlignment)
      → (summarize_alignments r items).aligned_count
          + (summarize_alignments r items).partial_count
          + (summarize_alignments r items).not_aligned_count
          + (summarize_alignments r items).unknown_count
        ≡ length (relevant_to r.gap_id items)
  unfolding summarize_alignments
  summary_partitions r items = counted (relevant_to r.gap_id items)
