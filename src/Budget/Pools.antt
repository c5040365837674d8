-- ===== src/Budget/Pools.antt =====
-- `build_resource_pool_snapshot`, `model_token_pool_for_node` and `model_token_pool_limits` of
-- apps/api/app/domain/research_budget.py. The snapshot is the list of its pools, each with its key.
pub mod Laws
use deep_research_agent.Common.{
  ℕ, ◌-◌, Bool, true, false, not, ◌||◌, ◌&&◌, Option, none, some, List, [], ◌∷◌, ◌++◌, map, String,
  string_eq, ◌==◌, leb, nat_eqb, if◌then◌else◌,
}
use deep_research_agent.Common.Floats.{Floats}
use deep_research_agent.Common.Values.{
  ℤ, pos, negsuc, clip, Value, integer, mapping, Fields, end, lookup, or_default, is_nonempty,
  Conversions,
}
use deep_research_agent.Budget.Questions.{safe_int}

pub data PoolStatus : Type 0 where
  disabled available exhausted released : PoolStatus

pub record ResourcePoolState : Type 0 where
  pub name : String
  pub unit : String
  pub limit : ℕ
  pub committed : ℕ
  pub reserved : ℕ
  pub uncertain : ℕ
  pub remaining : ℕ
  pub status : PoolStatus
  pub limit_key : String
  pub usage_key : String

pub data ModelTokenPool : Type 0 where
  planner research verification writer safety : ModelTokenPool

-- an entry of `specs`
pub record PoolSpec : Type 0 where
  pub name : String
  pub unit : String
  pub limit_key : String
  pub usage_key : String
  pub reservation_key : Option String

abbrev pub spec : String → String → String → String → Option String → PoolSpec
spec name unit limit_key usage_key reservation_key = record {
  name = name;
  unit = unit;
  limit_key = limit_key;
  usage_key = usage_key;
  reservation_key = reservation_key;
}

abbrev pub specs : List PoolSpec
specs =
    spec "logical_queries" "queries" "max_logical_queries" "logical_queries" none
    ∷ spec "provider_requests" "requests" "max_provider_requests" "search_provider_requests" none
    ∷ spec "pages_fetched" "pages" "max_pages_fetched" "pages_fetched" (some "page_slots_reserved")
    ∷ spec "page_fetch_attempts" "attempts" "max_page_fetch_attempts" "page_fetch_attempts"
        (some "page_slots_reserved")
    ∷ spec "pages_extracted" "pages" "max_pages_extracted" "pages_extracted"
        (some "extraction_slots_reserved")
    ∷ spec "extraction_calls" "calls" "max_extraction_calls" "extraction_calls"
        (some "extraction_slots_reserved")
    ∷ spec "verification_calls" "calls" "max_verification_calls" "verification_calls" none
    ∷ spec "scheduler_actions" "actions" "max_scheduler_actions" "scheduler_actions" none
    ∷ spec "productive_iterations" "iterations" "max_iterations" "productive_iterations" none
    ∷ []

abbrev pub pool_name : ModelTokenPool → String
pool_name planner = "planner"
pool_name research = "research"
pool_name verification = "verification"
pool_name writer = "writer"
pool_name safety = "safety"

-- f"model_tokens.{pool_name}"
abbrev pub full_name : ModelTokenPool → String
full_name planner = "model_tokens.planner"
full_name research = "model_tokens.research"
full_name verification = "model_tokens.verification"
full_name writer = "model_tokens.writer"
full_name safety = "model_tokens.safety"

abbrev pub limit_key_of : ModelTokenPool → String
limit_key_of planner = "allocation.planner_tokens"
limit_key_of research = "allocation.research_tokens"
limit_key_of verification = "allocation.verification_tokens"
limit_key_of writer = "allocation.writer_tokens_initial"
limit_key_of safety = "allocation.safety_tokens"

abbrev pub usage_key_of : ModelTokenPool → String
usage_key_of planner = "model_token_pools.planner.committed_tokens"
usage_key_of research = "model_token_pools.research.committed_tokens"
usage_key_of verification = "model_token_pools.verification.committed_tokens"
usage_key_of writer = "model_token_pools.writer.committed_tokens"
usage_key_of safety = "model_token_pools.safety.committed_tokens"

abbrev pub model_pools : List ModelTokenPool
model_pools = planner ∷ research ∷ verification ∷ writer ∷ safety ∷ []

-- `fold` stands for `node.strip().casefold()`
unfoldable pub model_token_pool_for_node : (fold : String → String) → String → ModelTokenPool
model_token_pool_for_node fold node =
    let normalized = fold node in
    if normalized == "planner"
    then planner
    else if normalized == "report_writer" || normalized == "writer"
    then writer
    else if normalized == "verification"
        || normalized == "claim_verifier"
        || normalized == "report_verifier"
    then verification
    else if normalized == "safety" || normalized == "reconciliation"
    then safety
    else research

-- `key in mapping`
abbrev pub is_present : {A : Type 0} → Option A → Bool
is_present none = false
is_present (some v) = true

-- `a - b` of two integers that are not negative
abbrev pub minus : ℕ → ℕ → ℤ
minus a b = if leb b a then pos (a - b) else negsuc (b - a - 1)

abbrev pub status_of : (limit remaining : ℕ) → PoolStatus
status_of limit remaining =
    if leb limit 0 then disabled else if leb remaining 0 then exhausted else available

module _ (fl : Floats) (conv : Conversions fl) where
  open fl use {F}

  -- `max(0, _safe_int(mapping.get(key, default)))`
  unfoldable pub count_or : String → ℤ → Fields F → ℕ
  unfolding safe_int
  count_or key default m =
      clip (safe_int fl conv (or_default (lookup key m) (integer default)) (pos 0))

  abbrev pub count_at : String → Fields F → ℕ
  count_at key m = count_or key (pos 0) m

  -- the limit of a pool, with the fallbacks on older keys
  unfoldable pub limit_of : PoolSpec → Fields F → ℕ
  unfolding count_or
  limit_of s budget =
      let limit = count_at s.limit_key budget in
      if s.name == "logical_queries" && nat_eqb limit 0
      then count_at "max_searches" budget
      else if (s.name == "pages_fetched" || s.name == "pages_extracted") && nat_eqb limit 0
      then count_at "max_pages" budget
      else limit

  unfoldable pub committed_of : PoolSpec → Fields F → ℕ
  unfolding count_or
  committed_of s usage =
      if s.name == "productive_iterations" && not (is_present (lookup s.usage_key usage))
      then count_at "iterations" usage
      else count_at s.usage_key usage

  abbrev pub reserved_of : Option String → Fields F → ℕ
  reserved_of none usage = 0
  reserved_of (some key) usage = count_at key usage

  -- the body of the loop over `specs`
  unfoldable pub pool_of : Fields F → Fields F → PoolSpec → ResourcePoolState
  unfolding limit_of committed_of
  pool_of budget usage s =
      let limit = limit_of s budget in
      let committed = committed_of s usage in
      let reserved = reserved_of s.reservation_key usage in
      let remaining = limit - committed - reserved in
      record {
        name = s.name;
        unit = s.unit;
        limit = limit;
        committed = committed;
        reserved = reserved;
        uncertain = 0;
        remaining = remaining;
        status = status_of limit remaining;
        limit_key = s.limit_key;
        usage_key = s.usage_key;
      }

  -- the local `released`
  abbrev pub is_released : Fields F → ModelTokenPool → Bool
  is_released usage writer = is_present (lookup "writer_token_reserve_released" usage)
  is_released usage verification = is_present (lookup "verification_token_reserve_released" usage)
  is_released usage _ = false

  -- the body of the loop over the model pools, past the test that `raw` is a mapping
  unfoldable pub model_pool_of : Fields F → ModelTokenPool → Fields F → ResourcePoolState
  unfolding count_or
  model_pool_of usage pool raw =
      let limit = count_at "allocated_tokens" raw in
      let committed = count_at "committed_tokens" raw in
      let remaining = count_or "remaining_tokens" (minus limit committed) raw in
      let is_done = is_released usage pool in
      record {
        name = full_name pool;
        unit = "tokens";
        limit = limit;
        committed = committed;
        reserved = count_at "reserved_tokens" raw;
        uncertain = count_at "uncertain_tokens" raw;
        remaining = if is_done then 0 else remaining;
        status = if is_done then released else status_of limit remaining;
        limit_key = limit_key_of pool;
        usage_key = usage_key_of pool;
      }

  abbrev pub append_pool :
      Fields F → ModelTokenPool → Value F → List ResourcePoolState → List ResourcePoolState
  append_pool usage pool (mapping raw) rest = model_pool_of usage pool raw ∷ rest
  append_pool usage pool _ rest = rest

  unfoldable pub model_pools_of : Fields F → Fields F → List ModelTokenPool → List ResourcePoolState
  model_pools_of usage raw_pools [] = []
  model_pools_of usage raw_pools (p ∷ ps) =
      append_pool usage p (or_default (lookup (pool_name p) raw_pools) (mapping end))
        (model_pools_of usage raw_pools ps)

  abbrev pub pools_if_mapping : Fields F → Value F → List ResourcePoolState
  pools_if_mapping usage (mapping raw_pools) = model_pools_of usage raw_pools model_pools
  pools_if_mapping usage _ = []

  -- `model_token_pools or usage.get("model_token_pools", {})`
  abbrev pub raw_model_pools : Option (Fields F) → Fields F → Value F
  raw_model_pools none usage = or_default (lookup "model_token_pools" usage) (mapping end)
  raw_model_pools (some pools) usage =
      if is_nonempty pools
      then mapping pools
      else or_default (lookup "model_token_pools" usage) (mapping end)

  unfoldable pub build_resource_pool_snapshot :
      Fields F → Fields F → Option (Fields F) → List ResourcePoolState
  unfolding pool_of model_pools_of
  build_resource_pool_snapshot budget usage model_token_pools =
      map (pool_of budget usage) specs
      ++ pools_if_mapping usage (raw_model_pools model_token_pools usage)

  -- The dictionary that the source returns, as a function of its key.
  unfoldable pub model_token_pool_limits : Fields F → ModelTokenPool → ℕ
  unfolding count_or
  model_token_pool_limits allocation planner = count_at "planner_tokens" allocation
  model_token_pool_limits allocation research = count_at "research_tokens" allocation
  model_token_pool_limits allocation verification = count_at "verification_tokens" allocation
  model_token_pool_limits allocation writer = clip (
      safe_int fl conv
        (or_default (lookup "writer_tokens_initial" allocation)
          (or_default (lookup "writer_tokens" allocation) (integer (pos 0))))
        (pos 0))
  model_token_pool_limits allocation safety = count_at "safety_tokens" allocation
