-- ===== src/ResearchState/Data.antt =====
-- The enumerations and models of apps/api/app/domain/state.py. A `UUID` is a number; `Score`s are
-- floats of the interface; an integer field with `ge=0` or `ge=1` is a number.
use deep_research_agent.Common.{ℕ, Bool, true, false, Option, List, String}

pub data RunStatus : Type 0 where
  created queued interrupted researching writing verifying completed completed_with_limitations :
      RunStatus
  failed cancelled credentials_required : RunStatus

pub data ResearchPhase : Type 0 where
  init analyze_query plan research evaluate write verify finalize : ResearchPhase

pub data KnowledgeStatus : Type 0 where
  supported partial disputed stale : KnowledgeStatus

pub data GapType : Type 0 where
  missing weak stale conflict insufficient_diversity : GapType

-- `OPEN` is `opened`, since `open` is a keyword.
pub data GapStatus : Type 0 where
  opened resolving resolved abandoned : GapStatus

pub data ActionType : Type 0 where
  retrieve_memory search_database search_web read_source extract save_evidence : ActionType
  analyze_data replan evaluate write stop : ActionType

-- `action_type in EXTERNAL_ACTIONS`
abbrev pub is_external : ActionType → Bool
is_external search_web = true
is_external read_source = true
is_external save_evidence = true
is_external analyze_data = true
is_external _ = false

pub data ActionStatus : Type 0 where
  proposed selected running completed blocked failed : ActionStatus

pub data StopReason : Type 0 where
  quality_met completed_with_limitations budget_exhausted stagnation sources_exhausted : StopReason
  cancelled fatal_error credentials_required provider_capability_insufficient : StopReason

pub record KnownClaimRef (F : Type 0) : Type 0 where
  pub claim_id : ℕ
  pub question_id : ℕ
  pub dimension_key : String
  pub status : KnowledgeStatus
  pub confidence : F
  pub evidence_ids : List ℕ
  pub independent_source_owner_keys : List String

pub record ResearchGap (F : Type 0) : Type 0 where
  pub gap_id : ℕ
  pub question_id : ℕ
  pub dimension_key : String
  pub gap_type : GapType
  pub description : String
  pub acceptance_criteria : String
  pub severity : F
  pub expected_information_gain : F
  pub resolution_attempts : ℕ
  pub status : GapStatus
  pub resolved_by_claim_ids : List ℕ

pub record NextAction (F : Type 0) : Type 0 where
  pub action_id : ℕ
  pub action_type : ActionType
  pub target_gap_ids : List ℕ
  pub tool_name : Option String
  pub expected_output : String
  pub expected_information_gain : F
  pub estimated_cost : F
  pub duplicate_key : Option String
  pub public_decision_summary : String
  pub status : ActionStatus

pub record BudgetLimits : Type 0 where
  pub max_iterations : ℕ
  pub max_searches : ℕ
  pub max_logical_queries : ℕ
  pub max_provider_requests : ℕ
  pub max_pages : ℕ
  pub max_pages_fetched : ℕ
  pub max_pages_extracted : ℕ
  pub max_extraction_calls : ℕ
  pub max_verification_calls : ℕ
  pub max_scheduler_actions : ℕ
  pub max_model_tokens : ℕ
  pub max_wall_clock_seconds : ℕ

pub record BudgetUsage : Type 0 where
  pub iterations : ℕ
  pub searches : ℕ
  pub logical_queries : ℕ
  pub search_provider_requests : ℕ
  pub pages : ℕ
  pub pages_fetched : ℕ
  pub pages_extracted : ℕ
  pub extraction_calls : ℕ
  pub verification_calls : ℕ
  pub scheduler_actions : ℕ
  pub productive_iterations : ℕ
  pub technical_retries : ℕ
  pub model_tokens : ℕ
  pub model_budget_guarded : Bool

pub record QualitySnapshot (F : Type 0) : Type 0 where
  pub coverage : F
  pub information_gain : F
  pub low_information_gain_streak : ℕ
  pub source_quality : F
  pub source_independence : F
  pub cross_validation : F
  pub freshness : F
  pub citation_support : F

pub record RequirementCoverageSnapshot (F : Type 0) : Type 0 where
  pub dimension_key : String
  pub criterion : String
  pub coverage : F
  pub accepted_evidence : ℕ
  pub independent_sources : ℕ
  pub required_sources : ℕ

pub record CoverageDimensionSnapshot (F : Type 0) : Type 0 where
  pub dimension_key : String
  pub question : String
  pub priority : ℕ
  pub coverage : F
  pub accepted_evidence : ℕ
  pub independent_sources : ℕ
  pub acceptance_criteria : List String
  pub requirement_statuses : List (RequirementCoverageSnapshot F)
  pub missing_reasons : List String

pub record ResearchState (F : Type 0) : Type 0 where
  pub schema_version : String
  pub graph_schema_revision : String
  pub run_id : ℕ
  pub state_version : ℕ
  pub status : RunStatus
  pub phase : ResearchPhase
  pub iteration : ℕ
  pub current_question_id : Option ℕ
  pub known : List (KnownClaimRef F)
  pub gaps : List (ResearchGap F)
  pub next_action : Option (NextAction F)
  pub budget_limits : BudgetLimits
  pub budget_usage : BudgetUsage
  pub quality : QualitySnapshot F
  pub coverage_map : List (CoverageDimensionSnapshot F)
  pub no_progress_iterations : ℕ
  pub cancel_requested : Bool
  pub stop_reason : Option StopReason

pub record StatePatch (F : Type 0) : Type 0 where
  pub patch_id : ℕ
  pub base_version : ℕ
  pub known_upserts : List (KnownClaimRef F)
  pub gap_upserts : List (ResearchGap F)
  pub next_action : Option (NextAction F)
  pub budget_usage : Option BudgetUsage
  pub quality : Option (QualitySnapshot F)
  pub coverage_map : Option (List (CoverageDimensionSnapshot F))
  pub phase : Option ResearchPhase
  pub status : Option RunStatus
  pub stop_reason : Option StopReason
  pub clear_stop_reason : Bool
