-- ===== src/ProviderRouter/Choice.antt =====
-- The definitions of apps/api/app/domain/provider_router.py.
-- `candidate_providers` and what `registry.active_providers()` returns are arguments of the
-- constructor; an id is a number; `max_provider_switches` is not negative, as at every call.
use deep_research_agent.Common.{
  ℕ, suc, ◌+◌, Bool, true, false, not, ◌&&◌, ◌||◌, Option, none, some, List, [], ◌∷◌, ◌++◌, String,
  string_eq, ◌==◌, ltb, leb, nat_eqb, if◌then◌else◌, length, contains, keep_if, unique, Result, ok,
  raise,
}
use deep_research_agent.Common.Floats.{Floats}
use deep_research_agent.ProviderHealth.Data.{
  ProviderHealthState, healthy, degraded, unavailable, cooldown, disabled_for_run, same_state,
}
use deep_research_agent.ProviderHealth.Tracker.{Tracker, state_of}

-- `_STATE_PRIORITY`
abbrev pub state_priority : ProviderHealthState → ℕ
state_priority healthy = 0
state_priority degraded = 1
state_priority ProviderHealthState.unknown = 2
state_priority cooldown = 3
state_priority unavailable = 99
state_priority disabled_for_run = 100

-- `_BLOCKED_STATES`
abbrev pub is_blocked : ProviderHealthState → Bool
is_blocked unavailable = true
is_blocked disabled_for_run = true
is_blocked _ = false

abbrev pub feedback_non_healthy_penalty : ℕ
feedback_non_healthy_penalty = 50

pub record ProviderSelectionDecision : Type 0 where
  pub selected_provider : Option String
  pub excluded_providers : List String
  pub reason : String
  pub health_state : Option ProviderHealthState
  pub fallback_used : Bool
  pub feedback_execution_id : Option ℕ
  pub provider_pool_size : ℕ
  pub available_provider_count : ℕ
  pub selection_rank : ℕ

pub data RouterError : Type 0 where
  no_candidate_provider : RouterError

-- an entry of `ranked`
pub record Ranked : Type 0 where
  pub priority : ℕ
  pub order : ℕ
  pub provider : String
  pub state : ProviderHealthState

-- the tier of a provider in the state, for a feedback query or another
abbrev pub tier : Bool → ProviderHealthState → ℕ
tier is_feedback state =
    if is_feedback && not (same_state state healthy)
    then state_priority state + feedback_non_healthy_penalty
    else state_priority state

abbrev pub selection_reason : Bool → ProviderHealthState → String
selection_reason true healthy = "feedback_query_healthy_provider_selected"
selection_reason true _ = "feedback_query_no_healthy_provider_fallback"
selection_reason false healthy = "healthy_provider_selected"
selection_reason false degraded = "healthy_provider_unavailable_degraded_fallback"
selection_reason false cooldown = "healthy_provider_unavailable_cooldown_probe"
selection_reason false _ = "healthy_provider_unavailable_unknown_fallback"

-- the order of `ranked.sort(key=…)`: by tier, then by the place in the pool
abbrev pub comes_before : Ranked → Ranked → Bool
comes_before x y =
    ltb x.priority y.priority || (nat_eqb x.priority y.priority && leb x.order y.order)

unfoldable pub insert_ranked : Ranked → List Ranked → List Ranked
insert_ranked x [] = x ∷ []
insert_ranked x (y ∷ ys) = if comes_before x y then x ∷ y ∷ ys else y ∷ insert_ranked x ys

unfoldable pub sort_ranked : List Ranked → List Ranked
unfolding insert_ranked
sort_ranked [] = []
sort_ranked (x ∷ xs) = insert_ranked x (sort_ranked xs)

pub record Router (F : Type 0) : Type 0 where
  pub health : Tracker F
  pub candidates : List String
  pub max_switches : ℕ

-- `self._candidates[0]`; the constructor leaves no empty pool
abbrev pub primary_of : List String → String
primary_of [] = ""
primary_of (c ∷ cs) = c

module _ (fl : Floats) where
  open fl use {F}

  abbrev pub build : Tracker F → List String → ℕ → Result RouterError (Router F)
  build health [] max_switches = raise no_candidate_provider
  build health (c ∷ cs) max_switches =
      ok (record { health = health; candidates = unique (c ∷ cs); max_switches = max_switches })

  -- `__init__`: an explicit sequence of candidates comes before the registry
  unfoldable pub new_router :
      Tracker F → Option (List String) → Option (List String) → ℕ → Result RouterError (Router F)
  new_router health (some candidates) registry max_switches = build health candidates max_switches
  new_router health none (some active) max_switches = build health active max_switches
  new_router health none none max_switches = raise no_candidate_provider

  abbrev pub is_barred : Tracker F → List String → String → Bool
  is_barred health excluded provider =
      contains provider excluded || is_blocked (state_of fl health provider)

  -- the entries that the loop of `select_for` appends to `ranked`
  unfoldable pub rank : Tracker F → Bool → List String → ℕ → List String → List Ranked
  rank health is_feedback excluded order [] = []
  rank health is_feedback excluded order (p ∷ ps) =
      let rest = rank health is_feedback excluded (suc order) ps in
      let state = state_of fl health p in
      if is_barred health excluded p
      then rest
      else (record {
        priority = tier is_feedback state;
        order = order;
        provider = p;
        state = state;
      })
        ∷ rest

  abbrev pub decide :
      Router F
      → (is_feedback : Bool) → (feedback_execution_id : Option ℕ)
      → (switches_used available_count : ℕ) → (primary : String) → (barred : List String)
      → List Ranked
      → ProviderSelectionDecision
  decide r is_feedback id switches_used available_count primary barred [] = record {
    selected_provider = none;
    excluded_providers = barred;
    reason = "all_providers_unavailable";
    health_state = none;
    fallback_used = false;
    feedback_execution_id = id;
    provider_pool_size = length r.candidates;
    available_provider_count = 0;
    selection_rank = 0;
  }
  decide r is_feedback id switches_used available_count primary barred (best ∷ others) =
      let fallback_used = not (best.provider == primary) in
      if fallback_used && leb r.max_switches switches_used
      then record {
        selected_provider = none;
        excluded_providers =
            unique (barred ++ keep_if (λ p. not (p == best.provider)) r.candidates);
        reason = "provider_switch_budget_exhausted";
        health_state = some best.state;
        fallback_used = false;
        feedback_execution_id = id;
        provider_pool_size = length r.candidates;
        available_provider_count = available_count;
        selection_rank = 0;
      }
      else record {
        selected_provider = some best.provider;
        excluded_providers = barred;
        reason = selection_reason is_feedback best.state;
        health_state = some best.state;
        fallback_used = fallback_used;
        feedback_execution_id = id;
        provider_pool_size = length r.candidates;
        available_provider_count = available_count;
        selection_rank = best.order + 1;
      }

  unfoldable pub select_for :
      Router F
      → (is_feedback : Bool) → (feedback_execution_id : Option ℕ) → (already_excluded : List String)
      → (provider_switches_used : ℕ) → ProviderSelectionDecision
  unfolding rank sort_ranked
  select_for r is_feedback id already_excluded switches_used =
      let excluded = unique already_excluded in
      let ranked = rank r.health is_feedback excluded 0 r.candidates in
      let barred = keep_if (is_barred r.health excluded) r.candidates in
      decide r is_feedback id switches_used (length ranked) (primary_of r.candidates) barred
        (sort_ranked ranked)
