-- ===== src/Closure/Pass/Laws.antt =====
-- The pass against the completion of apps/api/app/domain/closure_feedback_completeness.py.
use deep_research_agent.Common.{
  ℕ, ◌≡◌, refl, sym, ◌∙◌, inl, inr, Bool-cases, Option-cases, true, false, Option, none, some, List,
  [], ◌∷◌, ◌++◌, arith, String, string_eq, keep_if, contains, Result, ok, raise, ◌>>=◌, ◌≢◌,
}
use mathlib.Core.List.{append-nil, append_assoc}
use deep_research_agent.Common.Dict.{keys, get, get-put_cases}
use deep_research_agent.Common.Uuids.{Uuids}
use deep_research_agent.Closure.Data.{is_closed, GapRequirement, ClosureError}
use deep_research_agent.Closure.Alignment.{EvidenceAlignmentStatus}
use deep_research_agent.Closure.Feedback.{ClosureFeedback}
use deep_research_agent.Closure.Completeness.{
  set_default, add_if_given, add_feedback_ids, is_uncovered, feedback_id_by_gap,
  alignment_status_of, backfill, generate_completeness_feedback, complete_feedback_gaps,
  missing_feedback_requirements,
}
use deep_research_agent.Closure.Pass.{
  Collected, nothing_collected, skip_closed, skip_existing, collect_feedback, visit_all,
  pass_result, run_closure_feedback_completeness_pass, uuid_of,
}

then_ok :
    {X A B C : Type 0} (m : Result X A) (f : A → B) (g : B → C)
    → (m >>= (λ a. ok (f a)) >>= λ a. ok (g a)) ≡ (m >>= λ a. ok (g (f a)))
then_ok (ok a) f g = refl
then_ok (raise x) f g = refl

then_same : {X A : Type 0} (m : Result X A) → (m >>= λ a. ok a) ≡ m
then_same (ok a) = refl
then_same (raise x) = refl

pub get_of_contains :
    (k : String) (d : List (String × String)) → contains k (keys d) ≡ false → get k d ≡ none
unfolding get
get_of_contains k [] h = refl
get_of_contains k ((j, v) ∷ d) h = ground (arith, get_of_contains k d)

pub found_of_contains :
    (k : String) (d : List (String × String)) → contains k (keys d) ≡ true → get k d ≢ none
unfolding get
found_of_contains k [] h e = cc
found_of_contains k ((j, v) ∷ d) h e = ground (arith, found_of_contains k d)

module _ (ids : Uuids) where
  -- every value of the mapping is the text of an id
  abbrev pub IsReadable : List (String × String) → Type 0
  IsReadable d = (k v : String) → get k d ≡ some v → (n : ℕ) × (uuid_of ids v ≡ ok n)

  pub set_default-IsReadable :
      (k : String) (n : ℕ) (d : List (String × String))
      → IsReadable d
      → IsReadable (set_default k (ids.show n) d)
  set_default-IsReadable k n d h j v e = elim (Bool-cases (contains k (keys d))) [
    | inl c ↦ h j v (rw c at e)
    | inr c ↦ elim (get-put_cases k j (ids.show n) v d (rw c at e)) [
      | inl same ↦ (n, rw (same, ids.parse-show n) refl)
      | inr old ↦ h j v old
    ]
  ]

module _ {F : Type 0} (ids : Uuids) where
  add_feedback_ids-IsReadable :
      (fs : List (ClosureFeedback F)) (d : List (String × String))
      → IsReadable ids d
      → IsReadable ids (add_feedback_ids ids d fs)
  add_feedback_ids-IsReadable [] d h = h
  add_feedback_ids-IsReadable (f ∷ fs) d h =
      add_feedback_ids-IsReadable fs (set_default (ids.show f.gap_id) (ids.show f.feedback_id) d)
        (set_default-IsReadable ids (ids.show f.gap_id) f.feedback_id d h)

  module _ (d : List (String × String)) (statuses : List (ℕ × EvidenceAlignmentStatus))
      (now : Option ℕ) (clock : ℕ) where
    -- what the pass has generated, for the requirements and the lists before them
    abbrev generated_by :
        List (GapRequirement F) → Collected F → Result ClosureError (List (ClosureFeedback F))
    generated_by rs c = visit_all ids d statuses now clock rs c >>= λ x. ok x.generated

    -- what the completion adds to `before`
    abbrev added_to :
        List (ClosureFeedback F)
        → List (GapRequirement F)
        → Result ClosureError (List (ClosureFeedback F))
    added_to before rs = backfill ids statuses now clock rs >>= λ g. ok (before ++ g)

    added_later :
        (before : List (ClosureFeedback F)) (f : ClosureFeedback F) (rs : List (GapRequirement F))
        → added_to (before ++ f ∷ []) rs
          ≡ (backfill ids statuses now clock rs >>= λ g. ok (before ++ f ∷ g))
    added_later before f rs = go (backfill ids statuses now clock rs)
      where
        go :
            (m : Result ClosureError (List (ClosureFeedback F)))
            → (m >>= λ g. ok ((before ++ f ∷ []) ++ g)) ≡ (m >>= λ g. ok (before ++ f ∷ g))
        go (ok g) = rw (append_assoc before (f ∷ []) g) refl
        go (raise x) = refl

    visited :
        (rs kept : List (GapRequirement F)) (r : GapRequirement F) (c : Collected F)
        (m : Result ClosureError (Option (ClosureFeedback F)))
        → ((c : Collected F) → generated_by rs c ≡ added_to c.generated kept)
        → (m
            >>= (λ f. ok (collect_feedback r.gap_id f c))
            >>= (λ next. visit_all ids d statuses now clock rs next)
            >>= λ x. ok x.generated)
          ≡ (m
              >>= (λ f. backfill ids statuses now clock kept >>= λ rest. ok (add_if_given f rest))
              >>= λ g. ok (c.generated ++ g))
    visited rs kept r c (raise x) ih = refl
    visited rs kept r c (ok none) ih =
        ih (collect_feedback r.gap_id none c)
        ∙ sym (
            then_ok (backfill ids statuses now clock kept) (add_if_given none)
              (λ g. c.generated ++ g))
    visited rs kept r c (ok (some f)) ih =
        ih (collect_feedback r.gap_id (some f) c)
        ∙ added_later c.generated f kept
        ∙ sym (
            then_ok (backfill ids statuses now clock kept) (add_if_given (some f))
              (λ g. c.generated ++ g))

    pass_generates :
        (rs : List (GapRequirement F)) (c : Collected F)
        → IsReadable ids d
        → generated_by rs c ≡ added_to c.generated (keep_if (is_uncovered ids (keys d)) rs)
    unfolding visit_all backfill
    pass_generates [] c h = rw (append-nil c.generated) refl
    pass_generates (r ∷ rs) c h =
        let ih = λ (b : Collected F). pass_generates rs b h in
        elim (Bool-cases (is_closed r.closure_status)) [
          | inl e ↦ rw e (ih (skip_closed r.gap_id c))
          | inr o ↦ elim (Bool-cases (contains (ids.show r.gap_id) (keys d))) [
            | inl e ↦
                rw (o, e)
                  (elim (Option-cases (get (ids.show r.gap_id) d)) [
                    | inl g ↦ absurd (found_of_contains (ids.show r.gap_id) d e g)
                    | inr (v, g) ↦
                        let (n, u) = h (ids.show r.gap_id) v g in
                        rw (g, u) (ih (skip_existing r.gap_id n c))
                  ])
            | inr e ↦
                rw (o, e, get_of_contains (ids.show r.gap_id) d e)
                  (visited rs (keep_if (is_uncovered ids (keys d)) rs) r c
                    (generate_completeness_feedback ids r (alignment_status_of statuses r.gap_id)
                      now clock)
                    ih)
          ]
        ]

  -- The pass, given the ids of the existing feedback, generates the feedback that the completion adds,
  -- and raises what it raises.
  pub pass_agrees :
      (requirements : List (GapRequirement F)) (existing : List (ClosureFeedback F))
      (statuses : List (ℕ × EvidenceAlignmentStatus)) (now : Option ℕ) (clock : ℕ)
      → (run_closure_feedback_completeness_pass ids
            (feedback_id_by_gap ids existing)
            statuses
            now
            clock
            requirements
          >>= λ result. ok result.generated_feedbacks)
        ≡ complete_feedback_gaps ids requirements existing statuses now clock
  unfolding get run_closure_feedback_completeness_pass pass_result complete_feedback_gaps
      missing_feedback_requirements feedback_id_by_gap
  pass_agrees requirements existing statuses now clock =
      let d = feedback_id_by_gap ids existing in
      let readable : IsReadable ids d =
        add_feedback_ids-IsReadable existing [] (λ k v e. absurd (cc)) in
      then_ok (visit_all ids d statuses now clock requirements nothing_collected) pass_result
        (λ result. result.generated_feedbacks)
      ∙ pass_generates d statuses now clock requirements nothing_collected readable
      ∙ then_same
          (backfill ids statuses now clock (keep_if (is_uncovered ids (keys d)) requirements))
