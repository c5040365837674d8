-- ===== src/Closure/Finalizer/Laws.antt =====
-- Why each gap of a finished run is explained.
use deep_research_agent.Common.{
  ℕ, ◌≡◌, refl, sym, inl, inr, Bool, Bool-cases, keep_if, true, false, Option, none, some, List, [],
  ◌∷◌, ◌++◌, map, arith, String, string_eq, Result, ok,
}
use mathlib.Core.List.{append-nil}
use deep_research_agent.Common.Dict.{get}
use deep_research_agent.Common.Checks.{bind-ok}
use deep_research_agent.Common.Uuids.{Uuids}
use deep_research_agent.Closure.Data.{is_closed, GapRequirement, ClosureError}
use deep_research_agent.Closure.Alignment.{EvidenceAlignmentStatus}
use deep_research_agent.Common.Text.{is_blank}
use deep_research_agent.Closure.Completeness.Laws.{feedback_for, generate_open}
use deep_research_agent.Closure.Feedback.{ClosureFeedback}
use deep_research_agent.Closure.Completeness.{generate_completeness_feedback, alignment_status_of}
use deep_research_agent.Closure.Pass.{uuid_of}
use deep_research_agent.Closure.Finalizer.Explained.{is_fed, is_ended, is_unexplained, Adds}
use deep_research_agent.Closure.Finalizer.{
  existing_complete, existing_feedback, generated_feedback, terminal, Findings, keep_closed,
  keep_existing, add_generated, keep_terminal, finalized, finalize_unfed, finalize_open,
  finalize_gap,
}

-- a list that one element is appended to if it passes the test
module _ {A B : Type 0} (g : A → B) (test : A → Bool) (a : A) (bs : List B) where
  append_kept : test a ≡ true → bs ++ g a ∷ [] ≡ bs ++ map g (keep_if test (a ∷ []))
  append_kept h = rw h refl

  append_dropped : test a ≡ false → bs ≡ bs ++ map g (keep_if test (a ∷ []))
  append_dropped h = rw h (sym (append-nil bs))

module _ {F : Type 0} (ids : Uuids) (existing terminal_reasons : List (String × String))
    (statuses : List (ℕ × EvidenceAlignmentStatus)) (now : Option ℕ) (clock : ℕ) where
  generates_for :
      (r : GapRequirement F) (o : Option (ClosureFeedback F))
      → is_closed r.closure_status ≡ false
      → generate_completeness_feedback ids r (alignment_status_of statuses r.gap_id) now clock
        ≡ ok o
      → o ≡ some (feedback_for ids statuses now clock r)
  generates_for r o h run =
      let step = generate_open ids statuses now clock r h in
      elim (Bool-cases (is_blank (feedback_for ids statuses now clock r).missing_requirement)) [
        | inl e ↦ absurd (cc (rw (step, e) at run))
        | inr e ↦ cc (rw (step, e) at run)
      ]

  keep_closed-Adds :
      (r : GapRequirement F) (c : Findings F)
      → is_closed r.closure_status ≡ true
      → Adds ids existing terminal_reasons statuses now clock (r ∷ []) c (keep_closed r c)
  keep_closed-Adds r c h = record {
    none_blocked = refl;
    given =
        append_dropped (feedback_for ids statuses now clock)
          (is_unexplained ids existing terminal_reasons statuses now clock) r c.generated_feedbacks
          (ground (arith, h));
    fed =
        append_dropped (λ r. r.gap_id) (is_fed ids existing terminal_reasons statuses now clock) r
          c.existing_feedbacks (ground (arith, h));
    ended =
        append_dropped (λ r. r.gap_id) (is_ended ids existing terminal_reasons statuses now clock) r
          c.terminal_gaps (ground (arith, h));
    violating =
        append_dropped (λ r. r.gap_id)
          (is_unexplained ids existing terminal_reasons statuses now clock) r c.violations
          (ground (arith, h));
    explained = (
      finalized r false none existing_complete none ∷ [],
      refl,
      ((refl, refl, (ground arith, refl, refl, refl)), tt),
    );
  }

  keep_existing-Adds :
      (r : GapRequirement F) (text : String) (n : ℕ) (c : Findings F)
      → is_closed r.closure_status ≡ false
      → get (ids.show r.gap_id) existing ≡ some text
      → uuid_of ids text ≡ ok n
      → Adds ids existing terminal_reasons statuses now clock (r ∷ []) c (keep_existing r n c)
  keep_existing-Adds r text n c h found run = record {
    none_blocked = refl;
    given =
        append_dropped (feedback_for ids statuses now clock)
          (is_unexplained ids existing terminal_reasons statuses now clock) r c.generated_feedbacks
          (ground (arith, h, found));
    fed =
        append_kept (λ r. r.gap_id) (is_fed ids existing terminal_reasons statuses now clock) r
          c.existing_feedbacks (ground (arith, h, found));
    ended =
        append_dropped (λ r. r.gap_id) (is_ended ids existing terminal_reasons statuses now clock) r
          c.terminal_gaps (ground (arith, h, found));
    violating =
        append_dropped (λ r. r.gap_id)
          (is_unexplained ids existing terminal_reasons statuses now clock) r c.violations
          (ground (arith, h, found));
    explained = (
      finalized r true none existing_feedback (some n) ∷ [],
      refl,
      ((refl, refl, (ground (arith, h, found), refl, refl, text, found, n, run, refl)), tt),
    );
  }

  keep_terminal-Adds :
      (r : GapRequirement F) (reason : String) (c : Findings F)
      → is_closed r.closure_status ≡ false
      → get (ids.show r.gap_id) existing ≡ none
      → get (ids.show r.gap_id) terminal_reasons ≡ some reason
      → Adds ids existing terminal_reasons statuses now clock (r ∷ []) c (keep_terminal r reason c)
  keep_terminal-Adds r reason c h found why = record {
    none_blocked = refl;
    given =
        append_dropped (feedback_for ids statuses now clock)
          (is_unexplained ids existing terminal_reasons statuses now clock) r c.generated_feedbacks
          (ground (arith, h, found, why));
    fed =
        append_dropped (λ r. r.gap_id) (is_fed ids existing terminal_reasons statuses now clock) r
          c.existing_feedbacks (ground (arith, h, found, why));
    ended =
        append_kept (λ r. r.gap_id) (is_ended ids existing terminal_reasons statuses now clock) r
          c.terminal_gaps (ground (arith, h, found, why));
    violating =
        append_dropped (λ r. r.gap_id)
          (is_unexplained ids existing terminal_reasons statuses now clock) r c.violations
          (ground (arith, h, found, why));
    explained = (
      finalized r false (some reason) terminal none ∷ [],
      refl,
      ((refl, refl, (ground (arith, h, found, why), refl, refl, sym why)), tt),
    );
  }

  add_generated-Adds :
      (r : GapRequirement F) (c : Findings F)
      → is_closed r.closure_status ≡ false
      → get (ids.show r.gap_id) existing ≡ none
      → get (ids.show r.gap_id) terminal_reasons ≡ none
      → Adds ids existing terminal_reasons statuses now clock
          (r ∷ [])
          c
          (add_generated r (some (feedback_for ids statuses now clock r)) c)
  add_generated-Adds r c h found why = record {
    none_blocked = refl;
    given =
        append_kept (feedback_for ids statuses now clock)
          (is_unexplained ids existing terminal_reasons statuses now clock) r c.generated_feedbacks
          (ground (arith, h, found, why));
    fed =
        append_dropped (λ r. r.gap_id) (is_fed ids existing terminal_reasons statuses now clock) r
          c.existing_feedbacks (ground (arith, h, found, why));
    ended =
        append_dropped (λ r. r.gap_id) (is_ended ids existing terminal_reasons statuses now clock) r
          c.terminal_gaps (ground (arith, h, found, why));
    violating =
        append_kept (λ r. r.gap_id)
          (is_unexplained ids existing terminal_reasons statuses now clock) r c.violations
          (ground (arith, h, found, why));
    explained = (
      finalized r false none generated_feedback
            (some (feedback_for ids statuses now clock r).feedback_id)
          ∷ [],
      refl,
      ((refl, refl, (ground (arith, h, found, why), refl, refl, refl)), tt),
    );
  }

  -- the steps that return
  Adds-same :
      (r : GapRequirement F) (c d x : Findings F)
      → ◌≡◌ {A = Result ClosureError (Findings F)} (ok x) (ok d)
      → Adds ids existing terminal_reasons statuses now clock (r ∷ []) c x
      → Adds ids existing terminal_reasons statuses now clock (r ∷ []) c d
  Adds-same r c d x e h = let same : x ≡ d = cc in rw same at h

  finalize_unfed-Adds :
      (r : GapRequirement F) (reason : Option String) (c d : Findings F)
      → is_closed r.closure_status ≡ false
      → get (ids.show r.gap_id) existing ≡ none
      → get (ids.show r.gap_id) terminal_reasons ≡ reason
      → finalize_unfed ids existing terminal_reasons statuses now clock r reason c ≡ ok d
      → Adds ids existing terminal_reasons statuses now clock (r ∷ []) c d
  finalize_unfed-Adds r (some reason) c d o found why h =
      Adds-same r c d _ h (keep_terminal-Adds r reason c o found why)
  finalize_unfed-Adds r none c d o found why h =
      let (f, run, e) = bind-ok _ (λ f. ok (add_generated r f c)) d h in
      Adds-same r c d _ (rw (generates_for r f o run) at e) (add_generated-Adds r c o found why)

  finalize_open-Adds :
      (r : GapRequirement F) (found : Option String) (c d : Findings F)
      → is_closed r.closure_status ≡ false
      → get (ids.show r.gap_id) existing ≡ found
      → finalize_open ids existing terminal_reasons statuses now clock r found c ≡ ok d
      → Adds ids existing terminal_reasons statuses now clock (r ∷ []) c d
  finalize_open-Adds r (some text) c d o found h =
      let (n, run, e) = bind-ok (uuid_of ids text) (λ n. ok (keep_existing r n c)) d h in
      Adds-same r c d _ e (keep_existing-Adds r text n c o found run)
  finalize_open-Adds r none c d o found h =
      finalize_unfed-Adds r (get (ids.show r.gap_id) terminal_reasons) c d o found refl h

  pub finalize_gap-Adds :
      (r : GapRequirement F) (c d : Findings F)
      → finalize_gap ids existing terminal_reasons statuses now clock r c ≡ ok d
      → Adds ids existing terminal_reasons statuses now clock (r ∷ []) c d
  unfolding finalize_gap
  finalize_gap-Adds r c d h = elim (Bool-cases (is_closed r.closure_status)) [
    | inl e ↦ Adds-same r c d (keep_closed r c) (rw e at h) (keep_closed-Adds r c e)
    | inr e ↦ finalize_open-Adds r (get (ids.show r.gap_id) existing) c d e refl (rw e at h)
  ]
