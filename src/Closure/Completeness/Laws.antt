-- ===== src/Closure/Completeness/Laws.antt =====
-- What the completion of feedback promises.
use deep_research_agent.Common.{
  ℕ, ◌≡◌, ◌⊎◌, refl, ap, inl, inr, Bool, Bool-cases, true, false, ◌||◌, Option, some, List, [], ◌∷◌,
  ◌++◌, map, arith, String, string_eq, ◌==◌, contains, keep_if, any, All, if◌then◌else◌, ok, raise,
}
use deep_research_agent.Common.Dict.{keys, contains-keys-put}
use deep_research_agent.Common.Text.{is_blank}
use deep_research_agent.Common.Uuids.{Uuids}
use deep_research_agent.Common.Checks.{run_checks, bind-ok}
use deep_research_agent.Closure.Data.{is_closed, GapRequirement, empty_missing_requirement}
use deep_research_agent.Closure.Evaluation.{or_time}
use deep_research_agent.Closure.Alignment.{EvidenceAlignmentStatus}
use deep_research_agent.Closure.Feedback.{ClosureFeedback, check_feedback}
use deep_research_agent.Closure.Completeness.{
  set_default, add_feedback_ids, feedback_id_by_gap, is_uncovered, alignment_status_of, backfill,
  generate_completeness_feedback, completeness_feedback_of, complete_feedback_gaps,
  missing_feedback_requirements, feedback_completeness_violations,
}

contains-set_default :
    (k j v : String) (d : List (String × String))
    → contains j (keys (set_default k v d)) ≡ (contains j (keys d) || k == j)
contains-set_default k j v d = ground (arith, contains-keys-put k j v d, string_eq.same_iff k j)

module _ {F : Type 0} (ids : Uuids) where
  -- whether some feedback is about the gap with the text `k`
  abbrev is_about : String → List (ClosureFeedback F) → Bool
  is_about k fs = any (λ f. ids.show f.gap_id == k) fs

  contains-add_feedback_ids :
      (k : String) (d : List (String × String)) (fs : List (ClosureFeedback F))
      → contains k (keys (add_feedback_ids ids d fs)) ≡ (contains k (keys d) || is_about k fs)
  contains-add_feedback_ids k d [] = ground arith
  contains-add_feedback_ids k d (f ∷ fs) =
      let d1 = set_default (ids.show f.gap_id) (ids.show f.feedback_id) d in
      let step = contains-set_default (ids.show f.gap_id) k (ids.show f.feedback_id) d in
      ground (arith, step, contains-add_feedback_ids k d1 fs)

  contains-feedback_id_by_gap :
      (k : String) (fs : List (ClosureFeedback F))
      → contains k (keys (feedback_id_by_gap ids fs)) ≡ is_about k fs
  unfolding feedback_id_by_gap
  contains-feedback_id_by_gap k fs = contains-add_feedback_ids k [] fs

  is_about-append :
      (k : String) (fs gs : List (ClosureFeedback F))
      → is_about k (fs ++ gs) ≡ (is_about k fs || is_about k gs)
  is_about-append k [] gs = refl
  is_about-append k (f ∷ fs) gs = ground (arith, is_about-append k fs gs)

  module _ (statuses : List (ℕ × EvidenceAlignmentStatus)) (now : Option ℕ) (clock : ℕ) where
    unfoldable pub feedback_for : GapRequirement F → ClosureFeedback F
    feedback_for r =
        completeness_feedback_of ids r (alignment_status_of statuses r.gap_id) (or_time now clock)

    pub generate_open :
        (r : GapRequirement F)
        → is_closed r.closure_status ≡ false
        → generate_completeness_feedback ids r (alignment_status_of statuses r.gap_id) now clock ≡ (
            if is_blank (feedback_for r).missing_requirement
            then raise empty_missing_requirement
            else ok (some (feedback_for r)))
    unfolding generate_completeness_feedback check_feedback run_checks feedback_for
    generate_open r o = ground (arith, o)

    feedback_for_gap : (r : GapRequirement F) → (feedback_for r).gap_id ≡ r.gap_id
    unfolding feedback_for completeness_feedback_of
    feedback_for_gap r = refl

    backfill_step :
        (r : GapRequirement F) (rs : List (GapRequirement F)) (g : List (ClosureFeedback F))
        → is_closed r.closure_status ≡ false
        → backfill ids statuses now clock (r ∷ rs) ≡ ok g
        → (rest : List (ClosureFeedback F)) × (backfill ids statuses now clock rs ≡ ok rest)
          × (g ≡ feedback_for r ∷ rest)
    unfolding backfill
    backfill_step r rs g o h = elim (Bool-cases (is_blank (feedback_for r).missing_requirement)) [
      | inl e ↦ absurd (cc (rw (generate_open r o, e) at h))
      | inr e ↦
          let (rest, run, k) =
            bind-ok (backfill ids statuses now clock rs) (λ rest. ok (feedback_for r ∷ rest)) g
              (rw (generate_open r o, e) at h) in
          (rest, run, cc)
    ]

    backfill_gaps :
        (rs : List (GapRequirement F)) (g : List (ClosureFeedback F))
        → All (λ r. is_closed r.closure_status ≡ false) rs
        → backfill ids statuses now clock rs ≡ ok g
        → map (λ f. f.gap_id) g ≡ map (λ r. r.gap_id) rs
    unfolding backfill
    backfill_gaps [] [] o h = refl
    backfill_gaps [] (f ∷ g) o h = absurd (cc)
    backfill_gaps (r ∷ rs) g o h =
        let (rest, run, e) = backfill_step r rs g o.0 h in
        rw e (rw (feedback_for_gap r, backfill_gaps rs rest o.1 run) refl)

    uncovered_open :
        (covered : List String) (rs : List (GapRequirement F))
        → All (λ r. is_closed r.closure_status ≡ false) (keep_if (is_uncovered ids covered) rs)
    uncovered_open covered [] = tt
    uncovered_open covered (r ∷ rs) = elim (Bool-cases (is_uncovered ids covered r)) [
      | inl e ↦ rw e (ground (arith, e), uncovered_open covered rs)
      | inr e ↦ rw e (uncovered_open covered rs)
    ]

    -- Completion adds one feedback for each gap that is not closed and has none, in the order of
    -- the gaps, and no other.
    pub complete_feedback_gaps_exact :
        (requirements : List (GapRequirement F)) (existing added : List (ClosureFeedback F))
        → complete_feedback_gaps ids requirements existing statuses now clock ≡ ok added
        → map (λ f. f.gap_id) added
          ≡ map (λ r. r.gap_id) (missing_feedback_requirements ids requirements existing)
    unfolding complete_feedback_gaps missing_feedback_requirements
    complete_feedback_gaps_exact requirements existing added h =
        backfill_gaps _ added (uncovered_open (keys (feedback_id_by_gap ids existing)) requirements)
          h

  about_later :
      (f : ClosureFeedback F) (fs : List (ClosureFeedback F)) (rs : List (GapRequirement F))
      → All (λ r. is_about (ids.show r.gap_id) fs ≡ true) rs
      → All (λ r. is_about (ids.show r.gap_id) (f ∷ fs) ≡ true) rs
  about_later f fs [] h = tt
  about_later f fs (r ∷ rs) h = (ground (arith, h.0), about_later f fs rs h.1)

  -- Every gap of a list is one that a feedback about the same gaps is about.
  about_gaps :
      (fs : List (ClosureFeedback F)) (rs : List (GapRequirement F))
      → map (λ f. f.gap_id) fs ≡ map (λ r. r.gap_id) rs
      → All (λ r. is_about (ids.show r.gap_id) fs ≡ true) rs
  about_gaps fs [] h = tt
  about_gaps [] (r ∷ rs) h = absurd (cc)
  about_gaps (f ∷ fs) (r ∷ rs) h =
      let same : f.gap_id ≡ r.gap_id = cc in
      (
        ground
            (arith, ap ids.show same, string_eq.same_iff (ids.show f.gap_id) (ids.show r.gap_id)),
        about_later f fs rs (about_gaps fs rs (cc)),
      )

  covered_now :
      (r : GapRequirement F) (existing added : List (ClosureFeedback F))
      → (is_about (ids.show r.gap_id) added ≡ true)
        ⊎ (is_uncovered ids (keys (feedback_id_by_gap ids existing)) r ≡ false)
      → is_uncovered ids (keys (feedback_id_by_gap ids (existing ++ added))) r ≡ false
  covered_now r existing added h =
      let k = ids.show r.gap_id in
      ground (
        arith,
        h,
        contains-feedback_id_by_gap k existing,
        contains-feedback_id_by_gap k (existing ++ added),
        is_about-append k existing added,
      )

  nothing_uncovered :
      (existing added : List (ClosureFeedback F)) (rs : List (GapRequirement F))
      → All
          (λ r. is_about (ids.show r.gap_id) added ≡ true)
          (keep_if (is_uncovered ids (keys (feedback_id_by_gap ids existing))) rs)
      → keep_if (is_uncovered ids (keys (feedback_id_by_gap ids (existing ++ added)))) rs ≡ []
  nothing_uncovered existing added [] h = refl
  nothing_uncovered existing added (r ∷ rs) h =
      elim (Bool-cases (is_uncovered ids (keys (feedback_id_by_gap ids existing)) r)) [
        | inl e ↦
            let g = rw e at h in
            rw (covered_now r existing added (inl g.0)) (nothing_uncovered existing added rs g.1)
        | inr e ↦
            let g = rw e at h in
            rw (covered_now r existing added (inr e)) (nothing_uncovered existing added rs g)
      ]

  -- After a completion no gap lacks a feedback, and a further completion adds none.
  pub complete_feedback_gaps_completes :
      (requirements : List (GapRequirement F)) (existing added : List (ClosureFeedback F))
      (statuses : List (ℕ × EvidenceAlignmentStatus)) (now : Option ℕ) (clock : ℕ)
      → complete_feedback_gaps ids requirements existing statuses now clock ≡ ok added
      → (feedback_completeness_violations ids requirements (existing ++ added) ≡ [])
        × (complete_feedback_gaps ids requirements (existing ++ added) statuses now clock ≡ ok [])
  unfolding feedback_completeness_violations complete_feedback_gaps missing_feedback_requirements
      backfill
  complete_feedback_gaps_completes requirements existing added statuses now clock h =
      let exact = complete_feedback_gaps_exact statuses now clock requirements existing added h in
      let none_left = nothing_uncovered existing added requirements (about_gaps added _ exact) in
      rw (none_left) (refl, refl)
