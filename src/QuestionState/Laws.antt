-- ===== src/QuestionState/Laws.antt =====
-- What the projection of a question's state promises.
use deep_research_agent.Common.{◌≡◌, ◌⊎◌, ◌↔◌, true, false, ◌||◌, none, arith, if◌then◌else◌}
use deep_research_agent.Common.Floats.{Floats}
use deep_research_agent.QuestionState.{
  QuestionResearchFacts, QuestionResearchState, ResearchOpportunityState, completed_with_gap,
  completed_quality, completed, not_evaluated, eligible, denied, reasonable_attempts, meets_quality,
  project_question_research_state,
}

module _ (fl : Floats) (facts : QuestionResearchFacts fl.F) where
  abbrev projected : QuestionResearchState
  projected = project_question_research_state fl facts

  -- A question may be recovered exactly when its gap is open and was attempted and evaluated, the
  -- quality is not met, the budget does not block it and it has a recovery path left.
  pub recovery_eligible_iff :
      (projected.recovery_eligibility ≡ eligible)
      ↔ (facts.gap_open ≡ true)
        × (reasonable_attempts fl facts ≡ true)
        × (meets_quality fl facts ≡ false)
        × (facts.budget_blocked ≡ false)
        × (facts.has_recovery_path ≡ true)
  unfolding project_question_research_state
  recovery_eligible_iff = (λ h. ground arith, λ h. ground arith)

  -- A question whose opportunity has not started shows no sign of work and is not blocked; its
  -- recovery is not evaluated if a gap is open, and denied if none is.
  pub not_started_is_idle :
      projected.research_opportunity ≡ ResearchOpportunityState.not_started
      → (facts.search_queries_started ≡ 0)
        × (facts.search_queries_completed ≡ 0)
        × (facts.readable_sources ≡ 0)
        × (facts.evidence_extraction_started ≡ 0)
        × (facts.evaluation_completed ≡ false)
        × ((facts.technical_blocked || facts.resource_blocked) ≡ false)
        × (projected.recovery_eligibility ≡ (if facts.gap_open then not_evaluated else denied))
  unfolding project_question_research_state
  not_started_is_idle h = ground arith

  -- If the facts do not declare the quality met, then a completed opportunity, with a gap or with
  -- quality, was evaluated, its first pass is completed, and no blocking reason is shown unless the
  -- budget gives one.
  pub completed_was_evaluated :
      facts.quality_met ≡ false
      → (projected.research_opportunity ≡ completed_with_gap)
        ⊎ (projected.research_opportunity ≡ completed_quality)
      → (facts.evaluation_completed ≡ true)
        × (projected.first_pass_execution ≡ completed)
        × (facts.budget_blocking_reason ≡ none → projected.blocking_reason ≡ none)
  unfolding project_question_research_state
  completed_was_evaluated h k = ground arith
