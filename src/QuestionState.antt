-- ===== src/QuestionState.antt =====
-- apps/api/app/domain/question_research_state.py: the state of a question, projected from what the
-- run has observed.
pub mod Laws
mod Examples
use deep_research_agent.Common.{
  ℕ, zero, suc, Bool, true, false, not, ◌&&◌, ◌||◌, Option, none, some, String, ltb, if◌then◌else◌,
}
use deep_research_agent.Common.Floats.{Floats, unit_clamp}

pub data FirstPassExecutionState : Type 0 where
  not_started running completed blocked : FirstPassExecutionState

pub data ResearchOpportunityState : Type 0 where
  not_started active completed_with_gap completed_quality blocked_technical blocked_resource :
      ResearchOpportunityState

pub data RecoveryEligibilityState : Type 0 where
  not_evaluated eligible denied deferred : RecoveryEligibilityState

pub record QuestionResearchFacts (F : Type 0) : Type 0 where
  pub question_id : String
  pub search_queries_started : ℕ
  pub search_queries_completed : ℕ
  pub search_queries_failed : ℕ
  pub readable_sources : ℕ
  pub evidence_extraction_started : ℕ
  pub candidate_evidence : ℕ
  pub accepted_evidence : ℕ
  pub evaluation_completed : Bool
  pub coverage : F
  pub gap_open : Bool
  pub critical_gap : Bool
  pub replan_count : ℕ
  pub gap_resolution_attempts : ℕ
  pub query_family_marker_present : Bool
  pub technical_blocked : Bool
  pub resource_blocked : Bool
  pub budget_blocked : Bool
  pub budget_blocking_reason : Option String
  pub has_recovery_path : Bool
  pub quality_met : Bool

pub record QuestionResearchState : Type 0 where
  pub question_id : String
  pub first_pass_execution : FirstPassExecutionState
  pub research_opportunity : ResearchOpportunityState
  pub recovery_eligibility : RecoveryEligibilityState
  pub blocking_reason : Option String

abbrev pub is_opportunity : ResearchOpportunityState → ResearchOpportunityState → Bool
is_opportunity ResearchOpportunityState.not_started ResearchOpportunityState.not_started = true
is_opportunity active active = true
is_opportunity completed_with_gap completed_with_gap = true
is_opportunity completed_quality completed_quality = true
is_opportunity blocked_technical blocked_technical = true
is_opportunity blocked_resource blocked_resource = true
is_opportunity _ _ = false

module _ (fl : Floats) (facts : QuestionResearchFacts fl.F) where
  open facts use {
    search_queries_started, search_queries_completed, readable_sources, evidence_extraction_started,
    evaluation_completed, gap_open, replan_count, gap_resolution_attempts,
  }

  abbrev pub downstream_signal : Bool
  downstream_signal =
      ltb 0 readable_sources
      || ltb 0 evidence_extraction_started
      || evaluation_completed
      || ltb 0 replan_count
      || ltb 0 gap_resolution_attempts

  abbrev pub search_signal : Bool
  search_signal = ltb 0 search_queries_started || ltb 0 search_queries_completed

  unfoldable pub first_pass : FirstPassExecutionState
  first_pass =
      if facts.query_family_marker_present || ltb 0 search_queries_completed || downstream_signal
      then completed
      else if search_signal
      then running
      else if facts.technical_blocked || facts.resource_blocked
      then blocked
      else FirstPassExecutionState.not_started

  abbrev pub reasonable_attempts : Bool
  reasonable_attempts =
      evaluation_completed
      && (ltb 0 search_queries_completed
          || ltb 0 readable_sources
          || ltb 0 evidence_extraction_started
          || ltb 0 gap_resolution_attempts)

  -- the local `quality_met`
  abbrev pub meets_quality : Bool
  meets_quality =
      facts.quality_met
      || (evaluation_completed
          && fl.le (fl.decimal 1 0) (unit_clamp fl facts.coverage)
          && not gap_open)

  unfoldable pub opportunity : ResearchOpportunityState
  opportunity =
      if meets_quality
      then completed_quality
      else if gap_open && reasonable_attempts
      then completed_with_gap
      else if facts.technical_blocked
      then blocked_technical
      else if facts.resource_blocked
      then blocked_resource
      else if downstream_signal || search_signal
      then active
      else ResearchOpportunityState.not_started

  unfoldable pub recovery_of : ResearchOpportunityState → RecoveryEligibilityState
  recovery_of state =
      if is_opportunity state completed_quality || not gap_open
      then denied
      else if is_opportunity state ResearchOpportunityState.not_started
      then not_evaluated
      else if facts.budget_blocked
          || is_opportunity state blocked_technical
          || is_opportunity state blocked_resource
      then deferred
      else if is_opportunity state active
      then not_evaluated
      else if facts.has_recovery_path
      then eligible
      else denied

  abbrev pub or_reason : Option String → Bool → String → Option String
  or_reason (some r) test reason = some r
  or_reason none test reason = if test then some reason else none

  unfoldable pub blocking_reason_of : ResearchOpportunityState → Option String
  blocking_reason_of state =
      or_reason
        (or_reason facts.budget_blocking_reason (is_opportunity state blocked_technical)
          "technical_blocked")
        (is_opportunity state blocked_resource) "resource_blocked"

  unfoldable pub project_question_research_state : QuestionResearchState
  unfolding first_pass opportunity recovery_of blocking_reason_of
  project_question_research_state = record {
    question_id = facts.question_id;
    first_pass_execution = first_pass;
    research_opportunity = opportunity;
    recovery_eligibility = recovery_of opportunity;
    blocking_reason = blocking_reason_of opportunity;
  }
