-- ===== src/QuestionState/Examples.antt =====
-- Projections of small sets of facts.
use deep_research_agent.Common.{ℕ, ◌≡◌, ◌↔◌, refl, true, false, none}
use deep_research_agent.Common.Micros.{micros}
use deep_research_agent.QuestionState.{
  QuestionResearchFacts, ResearchOpportunityState, completed_with_gap, eligible,
  reasonable_attempts, meets_quality, project_question_research_state,
}
use deep_research_agent.QuestionState.Laws.{recovery_eligible_iff}

-- a question that nothing was done for
abbrev idle : QuestionResearchFacts ℕ
idle = record {
  question_id = "q1";
  search_queries_started = 0;
  search_queries_completed = 0;
  search_queries_failed = 1;
  readable_sources = 0;
  evidence_extraction_started = 0;
  candidate_evidence = 0;
  accepted_evidence = 0;
  evaluation_completed = false;
  coverage = 0;
  gap_open = true;
  critical_gap = true;
  replan_count = 0;
  gap_resolution_attempts = 0;
  query_family_marker_present = false;
  technical_blocked = false;
  resource_blocked = false;
  budget_blocked = false;
  budget_blocking_reason = none;
  has_recovery_path = true;
  quality_met = false;
}

-- a question that was searched for and evaluated, and whose gap is open still
abbrev evaluated : QuestionResearchFacts ℕ
evaluated = record idle {
  search_queries_started = 2;
  search_queries_completed = 2;
  readable_sources = 3;
  evaluation_completed = true;
  coverage = 400000;
}

idle_not_started :
    (project_question_research_state micros idle).research_opportunity
    ≡ ResearchOpportunityState.not_started
unfolding project_question_research_state
idle_not_started = refl

evaluated_with_gap :
    (project_question_research_state micros evaluated).research_opportunity ≡ completed_with_gap
unfolding project_question_research_state
evaluated_with_gap = refl

recovery_eligible_iff_example :
    ((project_question_research_state micros evaluated).recovery_eligibility ≡ eligible)
    ↔ (evaluated.gap_open ≡ true)
      × (reasonable_attempts micros evaluated ≡ true)
      × (meets_quality micros evaluated ≡ false)
      × (evaluated.budget_blocked ≡ false)
      × (evaluated.has_recovery_path ≡ true)
recovery_eligible_iff_example = recovery_eligible_iff micros evaluated
