-- ===== src/Closure/Finalizer/Total.antt =====
-- The finalizer of a run returns.
use deep_research_agent.Common.{
  ℕ, ◌≡◌, refl, inl, inr, Bool-cases, false, Option, none, some, List, [], ◌∷◌, String, string_eq,
  All, ok,
}
use deep_research_agent.Common.Dict.{get}
use deep_research_agent.Common.Text.{is_blank}
use deep_research_agent.Common.Uuids.{Uuids}
use deep_research_agent.Closure.Data.{is_closed, GapRequirement}
use deep_research_agent.Closure.Alignment.{EvidenceAlignmentStatus}
use deep_research_agent.Closure.Completeness.{alignment_status_of}
use deep_research_agent.Closure.Completeness.Total.{generates}
use deep_research_agent.Closure.Pass.{uuid_of}
use deep_research_agent.Closure.Pass.Laws.{IsReadable}
use deep_research_agent.Closure.Finalizer.{
  Findings, no_findings, keep_closed, keep_existing, keep_terminal, add_generated, finalize_unfed,
  finalize_open, finalize_gap, finalize_all, finalization_result, finalize_run_closure_feedback,
  RunClosureFeedbackFinalizationResult,
}
use deep_research_agent.Closure.Finalizer.Loop.{Accounts, finalization_result-Accounts}

module _ {F : Type 0} (ids : Uuids) (existing terminal_reasons : List (String × String))
    (statuses : List (ℕ × EvidenceAlignmentStatus)) (now : Option ℕ) (clock : ℕ) where
  finalize_unfed_total :
      (r : GapRequirement F) (reason : Option String) (c : Findings F)
      → is_blank r.dimension_key ≡ false
      → (d : Findings F) × (finalize_unfed ids existing terminal_reasons statuses now clock r reason
            c
          ≡ ok d)
  finalize_unfed_total r (some reason) c named = (keep_terminal r reason c, refl)
  finalize_unfed_total r none c named =
      let (f, e) =
        generates ids statuses now clock r (alignment_status_of statuses r.gap_id) named in
      (add_generated r f c, rw e refl)

  finalize_open_total :
      (r : GapRequirement F) (found : Option String) (c : Findings F)
      → is_blank r.dimension_key ≡ false
      → ((v : String) → found ≡ some v → (n : ℕ) × (uuid_of ids v ≡ ok n))
      → (d : Findings F) × (finalize_open ids existing terminal_reasons statuses now clock r found c
          ≡ ok d)
  finalize_open_total r (some text) c named read =
      let (n, e) = read text refl in (keep_existing r n c, rw e refl)
  finalize_open_total r none c named read =
      finalize_unfed_total r (get (ids.show r.gap_id) terminal_reasons) c named

  finalize_gap_total :
      (r : GapRequirement F) (c : Findings F)
      → is_blank r.dimension_key ≡ false
      → IsReadable ids existing
      → (d : Findings F) × (finalize_gap ids existing terminal_reasons statuses now clock r c
          ≡ ok d)
  unfolding finalize_gap
  finalize_gap_total r c named read = elim (Bool-cases (is_closed r.closure_status)) [
    | inl e ↦ (keep_closed r c, rw e refl)
    | inr e ↦
        let key = ids.show r.gap_id in
        let (d, run) = finalize_open_total r (get key existing) c named (read key) in (d, rw e run)
  ]

  finalize_all_total :
      (rs : List (GapRequirement F)) (c : Findings F)
      → All (λ r. is_blank r.dimension_key ≡ false) rs
      → IsReadable ids existing
      → (d : Findings F) × (finalize_all ids existing terminal_reasons statuses now clock rs c
          ≡ ok d)
  unfolding finalize_all
  finalize_all_total [] c named read = (c, refl)
  finalize_all_total (r ∷ rs) c named read =
      let (x, first) = finalize_gap_total r c named.0 read in
      let (d, rest) = finalize_all_total rs x named.1 read in (d, rw (first, rest) refl)

  -- If no gap has a blank dimension key and each existing feedback id is the text of a `UUID`, the
  -- finalizer returns, for its run. Each gap that is not closed and has neither feedback nor a reason
  -- is a violation and gets its completeness feedback; the gaps with feedback, those with a reason
  -- but no feedback, the violations and the generated feedback are listed in the order of the
  -- requirements, and none is blocked. There is one verdict for each requirement, in order, which
  -- says that the gap is closed, or names the feedback that it had or got or the reason that it was
  -- given. The status is `GENERATED` if feedback was generated, and `COMPLETED` if not.
  pub finalizer_explains_gaps :
      (run_id : ℕ) (requirements : List (GapRequirement F))
      → All (λ r. is_blank r.dimension_key ≡ false) requirements
      → IsReadable ids existing
      → (x : RunClosureFeedbackFinalizationResult F) × (finalize_run_closure_feedback ids existing
            terminal_reasons statuses now clock run_id requirements
          ≡ ok x)
        × Accounts ids existing terminal_reasons statuses now clock run_id requirements x
  unfolding finalize_run_closure_feedback
  finalizer_explains_gaps run_id requirements named read =
      let (c, run) = finalize_all_total requirements no_findings named read in
      (
        finalization_result run_id c,
        rw run refl,
        finalization_result-Accounts ids existing terminal_reasons statuses now clock run_id
            requirements c run,
      )
