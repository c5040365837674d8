-- ===== src/Closure/Finalizer/Loop.antt =====
-- What the finalizer's loop over the gaps leaves.
use deep_research_agent.Common.{
  ℕ, ◌≡◌, refl, sym, ◌∙◌, Bool, Bool-cases, inl, inr, keep_if, Option, List, [], ◌∷◌, ◌++◌, map,
  arith, String, ok,
}
use mathlib.Core.List.{append_assoc, append-nil}
use deep_research_agent.Common.Checks.{bind-ok}
use deep_research_agent.Common.Uuids.{Uuids}
use deep_research_agent.Closure.Data.{GapRequirement}
use deep_research_agent.Closure.Alignment.{EvidenceAlignmentStatus}
use deep_research_agent.Closure.Finalizer.{
  GapFinalizationVerdict, generated, completed, Findings, finalization_status, finalize_all,
  finalization_result, no_findings, RunClosureFeedbackFinalizationResult,
}
use deep_research_agent.Closure.Finalizer.Explained.{
  is_fed, is_ended, is_unexplained, gaps_that, feedback_of_unexplained, AllExplain, Adds,
}
use deep_research_agent.Closure.Finalizer.Laws.{finalize_gap-Adds}

-- a list that the first element was tried for, and then the others
append_step :
    {A B : Type 0} (g : A → B) (test : A → Bool) (a : A) (rest : List A) (xs ys zs : List B)
    → ys ≡ xs ++ map g (keep_if test (a ∷ []))
    → zs ≡ ys ++ map g (keep_if test rest)
    → zs ≡ xs ++ map g (keep_if test (a ∷ rest))
append_step g test a rest xs ys zs h k = elim (Bool-cases (test a)) [
  | inl e ↦
      let first : ys ≡ xs ++ g a ∷ [] = rw e at h in
      rw e (k ∙ rw first (append_assoc xs (g a ∷ []) (map g (keep_if test rest))))
  | inr e ↦ let first : ys ≡ xs ++ [] = rw e at h in rw e (k ∙ rw (first, append-nil xs) refl)
]

module _ {F : Type 0} (ids : Uuids) (existing terminal_reasons : List (String × String))
    (statuses : List (ℕ × EvidenceAlignmentStatus)) (now : Option ℕ) (clock : ℕ) where
  -- one explained verdict and then others
  explained_step :
      (r : GapRequirement F) (rs : List (GapRequirement F))
      (first others xs ys zs : List GapFinalizationVerdict)
      → ys ≡ xs ++ first
      → zs ≡ ys ++ others
      → AllExplain ids existing terminal_reasons statuses now clock (r ∷ []) first
      → AllExplain ids existing terminal_reasons statuses now clock rs others
      → (vs : List GapFinalizationVerdict) × (zs ≡ xs ++ vs)
        × AllExplain ids existing terminal_reasons statuses now clock (r ∷ rs) vs
  explained_step r rs [] others xs ys zs h k a b = absurd a
  explained_step r rs (v ∷ w ∷ vs) others xs ys zs h k a b = absurd a.1
  explained_step r rs (v ∷ []) others xs ys zs h k a b =
      (v ∷ others, k ∙ rw h (append_assoc xs (v ∷ []) others), (a.0, b))

  after_step :
      (r : GapRequirement F) (rs : List (GapRequirement F)) (c x d : Findings F)
      → Adds ids existing terminal_reasons statuses now clock (r ∷ []) c x
      → Adds ids existing terminal_reasons statuses now clock rs x d
      → Adds ids existing terminal_reasons statuses now clock (r ∷ rs) c d
  after_step r rs c x d h k =
      let (first, e, a) = h.explained in
      let (others, e2, b) = k.explained in
      record {
        none_blocked = k.none_blocked ∙ h.none_blocked;
        given = append_step _ _ r rs _ _ _ h.given k.given;
        fed = append_step _ _ r rs _ _ _ h.fed k.fed;
        ended = append_step _ _ r rs _ _ _ h.ended k.ended;
        violating = append_step _ _ r rs _ _ _ h.violating k.violating;
        explained = explained_step r rs first others _ _ _ e e2 a b;
      }

  nothing_added : (c : Findings F) → Adds ids existing terminal_reasons statuses now clock [] c c
  nothing_added c = record {
    none_blocked = refl;
    given = sym (append-nil _);
    fed = sym (append-nil _);
    ended = sym (append-nil _);
    violating = sym (append-nil _);
    explained = ([], sym (append-nil _), tt);
  }

  finalize_all-Adds :
      (rs : List (GapRequirement F)) (c d : Findings F)
      → finalize_all ids existing terminal_reasons statuses now clock rs c ≡ ok d
      → Adds ids existing terminal_reasons statuses now clock rs c d
  unfolding finalize_all
  finalize_all-Adds [] c d h = let same : c ≡ d = cc in rw same (nothing_added d)
  finalize_all-Adds (r ∷ rs) c d h =
      let (x, run, rest) = bind-ok _ _ d h in
      after_step r rs c x d
        (finalize_gap-Adds ids existing terminal_reasons statuses now clock r c x run)
        (finalize_all-Adds rs x d rest)

  -- what the result says of the gaps of the requirements
  pub record Accounts (run_id : ℕ) (rs : List (GapRequirement F))
      (x : RunClosureFeedbackFinalizationResult F) : Type 0 where
    pub about_run : x.run_id ≡ run_id
    pub given :
        x.generated_feedbacks
        ≡ feedback_of_unexplained ids existing terminal_reasons statuses now clock rs
    pub fed :
        x.existing_feedbacks
        ≡ gaps_that (is_fed ids existing terminal_reasons statuses now clock) rs
    pub ended :
        x.terminal_gaps ≡ gaps_that (is_ended ids existing terminal_reasons statuses now clock) rs
    pub violating :
        x.violations
        ≡ gaps_that (is_unexplained ids existing terminal_reasons statuses now clock) rs
    pub none_blocked : x.blocked_gaps ≡ []
    pub explained : AllExplain ids existing terminal_reasons statuses now clock rs x.verdicts
    pub status_shows :
        x.status ≡ (elim x.generated_feedbacks [ [] ↦ completed | f ∷ fs ↦ generated ])

  status_without_blocked :
      (c : Findings F)
      → c.blocked_gaps ≡ []
      → finalization_status c ≡ (elim c.generated_feedbacks [ [] ↦ completed | f ∷ fs ↦ generated ])
  status_without_blocked c h = ground (arith, h)

  pub finalization_result-Accounts :
      (run_id : ℕ) (rs : List (GapRequirement F)) (c : Findings F)
      → finalize_all ids existing terminal_reasons statuses now clock rs no_findings ≡ ok c
      → Accounts run_id rs (finalization_result run_id c)
  unfolding finalization_result
  finalization_result-Accounts run_id rs c run =
      let a = finalize_all-Adds rs no_findings c run in
      let (vs, e, why) = a.explained in
      record {
        about_run = refl;
        given = a.given;
        fed = a.fed;
        ended = a.ended;
        violating = a.violating;
        none_blocked = a.none_blocked;
        explained = rw e why;
        status_shows = status_without_blocked c a.none_blocked;
      }
