-- ===== src/Budget/Borrow/Laws.antt =====
-- What the borrowing gate promises.
use deep_research_agent.Common.{
  ℕ, ◌*◌, ◌/◌, ◌≤◌, ◌<◌, ◌≡◌, ◌≢◌, ◌⊎◌, inl, inr, Bool-cases, ltb, leb, lt→ltb, ◌&&◌, Bool, true,
  false, not, ◌||◌, none, some, arith,
}
use deep_research_agent.Common.Floats.{Floats, lt}
use deep_research_agent.QuestionState.{
  QuestionResearchState, QuestionResearchFacts, ResearchOpportunityState, eligible,
  project_question_research_state,
}
use deep_research_agent.Budget.Risk.{is_blocked, VerificationState}
use deep_research_agent.Budget.Borrow.{
  BorrowRequest, borrow_cap, recovery_cap, acceptance_gap_open, recovery_exception,
  recovery_variant, nothing_to_recover, choose_over_target, decide_over_target,
  decide_question_borrow,
}

-- what the tests over the target allow and refuse
choose_allows :
    (over_cap exception over_recovery blocked nothing low_gain low_utility : Bool)
    → let d =
        choose_over_target over_cap exception over_recovery blocked nothing low_gain low_utility in
      (d.allowed ≡ true
        → ((over_cap ≡ true → (exception ≡ true) × (over_recovery ≡ false))
            × (blocked ≡ false)
            × (nothing ≡ false)
            × (low_utility ≡ false)
            × (d.hard_limit ≡ false)
            × (d.freeze_question ≡ false)))
      × (d.hard_limit ≡ true → (over_cap ≡ true) ⊎ (over_recovery ≡ true))
unfolding choose_over_target
choose_allows over_cap exception over_recovery blocked nothing low_gain low_utility =
    (λ h. ground arith, λ h. ground arith)

caps_bound :
    (t p : ℕ) (exception : Bool)
    → (ltb (borrow_cap t) p ≡ true → (exception ≡ true) × (ltb (recovery_cap t) p ≡ false))
    → p ≤ 2 * t
caps_bound t p exception h = elim (Bool-cases (ltb (borrow_cap t) p)) [
  | inl over ↦ let k = (h over).1 in ground arith
  | inr under ↦ ground arith
]

hard_bound :
    (t p : ℕ) → (ltb (borrow_cap t) p ≡ true) ⊎ (ltb (recovery_cap t) p ≡ true) → t * 3 / 2 < p
hard_bound t p h = ground arith

module _ (fl : Floats) where
  open fl use {F, le}

  -- the tests over the target at a request
  over_target_allows :
      (r : BorrowRequest F)
      → let d = decide_over_target fl r in
        (d.allowed ≡ true
          → ((r.projected_spend ≤ 2 * r.target_tokens)
              × (r.target_tokens * 3 / 2 < r.projected_spend → recovery_exception fl r ≡ true)
              × (is_blocked r.state.verification_state ≡ false)
              × (nothing_to_recover fl r ≡ false)
              × (lt fl r.expected_utility r.utility_threshold ≡ false)
              × (d.hard_limit ≡ false)
              × (d.freeze_question ≡ false)))
        × (d.hard_limit ≡ true → r.target_tokens * 3 / 2 < r.projected_spend)
  unfolding decide_over_target
  over_target_allows r =
      let t = r.target_tokens in
      let p = r.projected_spend in
      let facts =
        choose_allows (ltb (borrow_cap t) p) (recovery_exception fl r) (ltb (recovery_cap t) p)
          (is_blocked r.state.verification_state) (nothing_to_recover fl r)
          (leb 2 r.low_gain_streak && not (recovery_variant fl r))
          (lt fl r.expected_utility r.utility_threshold) in
      (
        λ h.
            let (caps, blocked, nothing, utility, hard, freeze) = facts.0 h in
            (
              caps_bound t p (recovery_exception fl r) caps,
              λ over. (caps (lt→ltb _ _ over)).0,
              blocked,
              nothing,
              utility,
              hard,
              freeze,
            ),
        λ h. hard_bound t p (facts.1 h),
      )

  -- A question is never lent more than twice its target, and more than one and a half times only
  -- with a recovery exception.
  pub borrow_bounded :
      (r : BorrowRequest F)
      → (decide_question_borrow fl r).allowed ≡ true
      → (r.projected_spend ≤ 2 * r.target_tokens)
        × (r.target_tokens * 3 / 2 < r.projected_spend → recovery_exception fl r ≡ true)
  unfolding decide_question_borrow
  borrow_bounded r h = ground (arith, over_target_allows r)

  -- A question that spends more than its target is allowed to only if its verification is not
  -- blocked, a gap is open or a high risk unresolved, the utility reaches the threshold, and its
  -- state, where one is projected, shows a started opportunity and an eligible recovery; where
  -- none is, all first passes are complete.
  pub borrow_needs :
      (r : BorrowRequest F)
      → r.target_tokens < r.projected_spend
      → (decide_question_borrow fl r).allowed ≡ true
      → (r.state.verification_state ≢ VerificationState.blocked)
        × ((acceptance_gap_open fl r || r.state.unresolved_high_risk) ≡ true)
        × (le r.utility_threshold r.expected_utility ≡ true)
        × ((s : QuestionResearchState)
            → r.research_state ≡ some s
            → (s.research_opportunity ≢ ResearchOpportunityState.not_started)
              × (s.recovery_eligibility ≡ eligible))
        × (r.research_state ≡ none → r.all_first_passes_complete ≡ true)
  unfolding decide_question_borrow
  borrow_needs r over h = (
    ground (arith, over_target_allows r),
    ground (arith, over_target_allows r),
    ground (arith, over_target_allows r),
    λ s e. ground (arith, over_target_allows r),
    λ e. ground (arith, over_target_allows r),
  )

  -- Within its target a question is always served; a question is frozen, or told that it met a
  -- hard limit, only when it is refused, and a hard limit is met only beyond one and a half times
  -- the target.
  pub borrow_refusals :
      (r : BorrowRequest F)
      → (r.projected_spend ≤ r.target_tokens → (decide_question_borrow fl r).allowed ≡ true)
        × ((decide_question_borrow fl r).allowed ≡ true
            → ((decide_question_borrow fl r).hard_limit ≡ false)
              × ((decide_question_borrow fl r).freeze_question ≡ false))
        × ((decide_question_borrow fl r).hard_limit ≡ true
            → r.target_tokens * 3 / 2 < r.projected_spend)
  unfolding decide_question_borrow
  borrow_refusals r = (
    λ h. ground arith,
    λ h. ground (arith, over_target_allows r),
    λ h. ground (arith, over_target_allows r),
  )

  -- If the facts of a question show no open gap, and the request comes with the state projected
  -- from them, then the question is refused tokens beyond its target, whatever its risk; and it is
  -- frozen, unless its opportunity has not started.
  pub closed_gap_borrows_nothing :
      (facts : QuestionResearchFacts F) (r : BorrowRequest F)
      → facts.gap_open ≡ false
      → r.research_state ≡ some (project_question_research_state fl facts)
      → r.target_tokens < r.projected_spend
      → ((decide_question_borrow fl r).allowed ≡ false)
        × (((project_question_research_state fl facts).research_opportunity
              ≡ ResearchOpportunityState.not_started)
            ⊎ ((decide_question_borrow fl r).freeze_question ≡ true))
  unfolding decide_question_borrow project_question_research_state
  closed_gap_borrows_nothing facts r h e over = ground arith
