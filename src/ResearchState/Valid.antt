-- ===== src/ResearchState/Valid.antt =====
-- The invariants that hold of every state that `apply_patch` returns, and the actions that it
-- refuses.
use deep_research_agent.Common.{
  ℕ, ◌≤◌, ◌≡◌, Bool, true, false, not, some, List, [], ◌∷◌, map, nat_eq, any, contains, arith,
  IsDistinct, ok,
}
use deep_research_agent.Common.Checks.{run_checks-ok, AllPass}
use deep_research_agent.ResearchState.Data.{
  ResearchGap, NextAction, is_external, ResearchState, StatePatch,
}
use deep_research_agent.ResearchState.Validate.{
  claim_id_of, gap_id_of, pending_ids, strays, state_checks, page_limit, page_usage,
  page_overrun_is_terminal, is_closing, validate_state_invariants,
}
use deep_research_agent.ResearchState.Reducer.{patched, apply_patch}
use deep_research_agent.ResearchState.Merge.{merge-IsDistinct}
use deep_research_agent.ResearchState.Laws.{applied}

any-false :
    (p : ℕ → Bool) (xs : List ℕ) (t : ℕ) → any p xs ≡ false → contains t xs ≡ true → p t ≡ false
any-false p [] t h m = cc
any-false p (x ∷ xs) t h m = ground (arith, any-false p xs t)

module _ {F : Type 0} where
  -- Ids are unique, an external action targets pending gaps of the state, and the usage is within
  -- the limits, but for an overrun that ends the run or comes with the report.
  pub record IsValid (s : ResearchState F) : Type 0 where
    pub claims_distinct : IsDistinct (map claim_id_of s.known)
    pub gaps_distinct : IsDistinct (map gap_id_of s.gaps)
    pub targets_pending :
        (a : NextAction F) (t : ℕ)
        → s.next_action ≡ some a
        → is_external a.action_type ≡ true
        → contains t a.target_gap_ids ≡ true
        → contains t (pending_ids s.gaps) ≡ true
    pub iterations_within : s.budget_usage.iterations ≤ s.budget_limits.max_iterations
    pub searches_within : s.budget_usage.searches ≤ s.budget_limits.max_searches
    pub pages_within : page_overrun_is_terminal s ≡ false → page_usage s ≤ page_limit s
    pub tokens_within :
        is_closing s.phase ≡ false
        → s.budget_usage.model_budget_guarded ≡ false
        → s.budget_usage.model_tokens ≤ s.budget_limits.max_model_tokens

  target_of_strays :
      (a : NextAction F) (gaps : List (ResearchGap F)) (t : ℕ)
      → strays (some a) gaps ≡ false
      → is_external a.action_type ≡ true
      → contains t a.target_gap_ids ≡ true
      → contains t (pending_ids gaps) ≡ true
  target_of_strays a gaps t h e m =
      let none_strays : any (λ u. not (contains u (pending_ids gaps))) a.target_gap_ids ≡ false =
        ground arith in
      ground (
        arith,
        any-false (λ u. not (contains u (pending_ids gaps))) a.target_gap_ids t none_strays m,
      )

  checked-IsValid :
      (s : ResearchState F)
      → IsDistinct (map claim_id_of s.known)
      → IsDistinct (map gap_id_of s.gaps)
      → AllPass (state_checks s)
      → IsValid s
  checked-IsValid s claims gaps
        (repeats, (repeats', (stray, (iterations, (searches, (pages, (tokens, done))))))) =
      record {
        claims_distinct = claims;
        gaps_distinct = gaps;
        targets_pending = λ a t is_next. target_of_strays a s.gaps t (rw is_next at stray);
        iterations_within = ground arith;
        searches_within = ground arith;
        pages_within = λ h. ground arith;
        tokens_within = λ h k. ground arith;
      }

  -- Every state that a patch leads to is valid, whatever the state before was: its claims and gaps
  -- have distinct ids, an external action targets pending gaps only, and the iterations, searches,
  -- pages and tokens are within the limits, but for the overruns that the validator lets pass.
  pub apply_patch-IsValid :
      (s s' : ResearchState F) (p : StatePatch F) → apply_patch s p ≡ ok s' → IsValid s'
  apply_patch-IsValid s s' p h =
      let (is_patched, same, valid) = applied s s' p h in
      let checked =
        (run_checks-ok (state_checks (patched s p)) (patched s p) s'
          (unfold validate_state_invariants in valid)).1 in
      let claims : IsDistinct (map claim_id_of (patched s p).known) =
        unfold patched in merge-IsDistinct claim_id_of s.known p.known_upserts in
      let gaps : IsDistinct (map gap_id_of (patched s p).gaps) =
        unfold patched in merge-IsDistinct gap_id_of s.gaps p.gap_upserts in
      rw is_patched (checked-IsValid (patched s p) claims gaps checked)
