-- ===== src/ResearchState/Examples.antt =====
-- Runs of the reducer on a small state.
use deep_research_agent.Common.{
  ℕ, ◌+◌, ◌*◌, ◌≡◌, ◌≢◌, ◌↔◌, refl, true, false, none, some, List, [], ◌∷◌, if◌then◌else◌, ok,
  raise, unique,
}
use deep_research_agent.Common.Dict.{put}
use deep_research_agent.Common.Checks.{run_checks}
use deep_research_agent.ResearchState.Data.{
  RunStatus, ResearchPhase, KnowledgeStatus, GapType, GapStatus, opened, resolved, ActionType,
  ActionStatus, KnownClaimRef, ResearchGap, NextAction, BudgetLimits, BudgetUsage, QualitySnapshot,
  ResearchState, StatePatch,
}
use deep_research_agent.ResearchState.Validate.{
  state_version_conflict, claims_not_unique, gaps_not_unique, claim_id_of, gap_id_of,
  validate_state_invariants,
}
use deep_research_agent.ResearchState.Reducer.{patched, apply_patch, merge, put_all, or_keep_some}
use deep_research_agent.ResearchState.Merge.{find_last}
use deep_research_agent.ResearchState.Laws.{apply_patch_errors, apply_patch_effect}
use deep_research_agent.ResearchState.Valid.{IsValid, apply_patch-IsValid}

abbrev claim : ℕ → List ℕ → KnownClaimRef ℕ
claim id evidence = record {
  claim_id = id;
  question_id = 1;
  dimension_key = "cost";
  status = KnowledgeStatus.supported;
  confidence = 800000;
  evidence_ids = evidence;
  independent_source_owner_keys = [];
}

abbrev gap : ℕ → GapStatus → List ℕ → ResearchGap ℕ
gap id status claims = record {
  gap_id = id;
  question_id = 1;
  dimension_key = "cost";
  gap_type = GapType.missing;
  description = "no figure";
  acceptance_criteria = "one figure";
  severity = 500000;
  expected_information_gain = 300000;
  resolution_attempts = 1;
  status = status;
  resolved_by_claim_ids = claims;
}

abbrev search : List ℕ → NextAction ℕ
search targets = record {
  action_id = 40;
  action_type = ActionType.search_web;
  target_gap_ids = targets;
  tool_name = some "web_search";
  expected_output = "a figure";
  expected_information_gain = 300000;
  estimated_cost = 100000;
  duplicate_key = none;
  public_decision_summary = "search again";
  status = ActionStatus.proposed;
}

abbrev limits : BudgetLimits
limits = record {
  max_iterations = 4;
  max_searches = 10;
  max_logical_queries = 10;
  max_provider_requests = 10;
  max_pages = 20;
  max_pages_fetched = 20;
  max_pages_extracted = 20;
  max_extraction_calls = 10;
  max_verification_calls = 10;
  max_scheduler_actions = 10;
  max_model_tokens = 50000;
  max_wall_clock_seconds = 600;
}

abbrev usage : ℕ → BudgetUsage
usage n = record {
  iterations = n;
  searches = n;
  logical_queries = n;
  search_provider_requests = n;
  pages = n;
  pages_fetched = n;
  pages_extracted = n;
  extraction_calls = n;
  verification_calls = 0;
  scheduler_actions = n;
  productive_iterations = n;
  technical_retries = 0;
  model_tokens = 1000 * n;
  model_budget_guarded = false;
}

abbrev quality : QualitySnapshot ℕ
quality = record {
  coverage = 500000;
  information_gain = 200000;
  low_information_gain_streak = 0;
  source_quality = 500000;
  source_independence = 500000;
  cross_validation = 0;
  freshness = 500000;
  citation_support = 0;
}

abbrev before : ResearchState ℕ
before = record {
  schema_version = "1.0";
  graph_schema_revision = "1";
  run_id = 9;
  state_version = 3;
  status = RunStatus.researching;
  phase = ResearchPhase.research;
  iteration = 1;
  current_question_id = some 1;
  known = claim 10 (1 ∷ []) ∷ [];
  gaps = gap 20 opened [] ∷ gap 21 opened [] ∷ [];
  next_action = some (search (20 ∷ []));
  budget_limits = limits;
  budget_usage = usage 1;
  quality = quality;
  coverage_map = [];
  no_progress_iterations = 0;
  cancel_requested = false;
  stop_reason = none;
}

-- It brings a new claim, which resolves gap 20, and moves the action on to gap 21.
abbrev patch : StatePatch ℕ
patch = record {
  patch_id = 50;
  base_version = 3;
  known_upserts = claim 11 (2 ∷ 3 ∷ []) ∷ [];
  gap_upserts = gap 20 resolved (11 ∷ []) ∷ [];
  next_action = some (search (21 ∷ []));
  budget_usage = some (usage 2);
  quality = none;
  coverage_map = none;
  phase = some ResearchPhase.evaluate;
  status = none;
  stop_reason = none;
  clear_stop_reason = true;
}

-- another patch on the same version
abbrev late : StatePatch ℕ
late = record patch { patch_id = 51; known_upserts = [] }

accepted : apply_patch before patch ≡ ok (patched before patch)
unfolding apply_patch validate_state_invariants patched merge put_all put run_checks unique
accepted = refl

apply_patch_effect_example :
    ((patched before patch).state_version ≡ before.state_version + 1)
    × ((k : ℕ)
        → find_last claim_id_of k (patched before patch).known
          ≡ or_keep_some
              (find_last claim_id_of k patch.known_upserts)
              (find_last claim_id_of k before.known))
    × ((k : ℕ)
        → find_last gap_id_of k (patched before patch).gaps
          ≡ or_keep_some
              (find_last gap_id_of k patch.gap_upserts)
              (find_last gap_id_of k before.gaps))
    × ((patched before patch).run_id ≡ before.run_id)
    × ((patched before patch).budget_limits ≡ before.budget_limits)
    × ((patched before patch).cancel_requested ≡ before.cancel_requested)
    × ((patched before patch).stop_reason ≡ (
        if patch.clear_stop_reason
        then none
        else or_keep_some patch.stop_reason before.stop_reason))
apply_patch_effect_example = apply_patch_effect before (patched before patch) patch accepted

apply_patch-IsValid_example : IsValid (patched before patch)
apply_patch-IsValid_example = apply_patch-IsValid before (patched before patch) patch accepted

apply_patch_errors_example :
    ((apply_patch before patch ≡ raise state_version_conflict)
      ↔ (patch.base_version ≢ before.state_version))
    × (apply_patch before patch ≢ raise claims_not_unique)
    × (apply_patch before patch ≢ raise gaps_not_unique)
apply_patch_errors_example = apply_patch_errors before patch
