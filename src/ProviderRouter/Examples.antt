-- ===== src/ProviderRouter/Examples.antt =====
-- A pool of three providers.
use deep_research_agent.Common.{
  ℕ, suc, ◌+◌, arith, ◌≤◌, ◌<◌, ◌≡◌, ◌≢◌, ◌⊎◌, refl, true, false, ◌||◌, none, some, [], ◌∷◌, String,
  string_eq, contains, unique,
}
use mathlib.Core.Option
use deep_research_agent.Common.Micros.{micros}
use deep_research_agent.Common.Dict.{get, put}
use deep_research_agent.ProviderHealth.Data.{
  timeout, cooldown, degraded, network_error, circuit_open, new_record,
}
use deep_research_agent.ProviderHealth.Record.{succeed, fail}
use deep_research_agent.ProviderHealth.Tracker.{
  Tracker, new_tracker, state_of, tracked, record_success, record_failure,
}
use deep_research_agent.ProviderHealth.Runs.{success, failure, run, call}
use deep_research_agent.ProviderHealth.Transitions.{Failure, failed}
use deep_research_agent.ProviderRouter.Relapse.{lone_router, further_failure_lifts_bar}
use deep_research_agent.ProviderRouter.Choice.{
  Router, select_for, primary_of, rank, sort_ranked, insert_ranked, tier, is_blocked,
}
use deep_research_agent.ProviderRouter.Laws.{
  selection_admissible, selection_preferred, refusal_justified,
}

abbrev bing : String
bing = "bing"

abbrev quark : String
quark = "quark"

-- quark is the primary and degraded, bing is healthy
abbrev router : Router ℕ
router = record {
  health = run micros (new_tracker micros 15000000 3 3) (
      failure "quark" network_error 0 (some 10) 10
      ∷ success "bing" 300000 (some 20) 20
      ∷ success "sogou" 300000 (some 20) 20
      ∷ []);
  candidates = "quark" ∷ "bing" ∷ "sogou" ∷ [];
  max_switches = 1;
}

-- both providers are unavailable
abbrev exhausted : Router ℕ
exhausted = record {
  health = run micros (new_tracker micros 15000000 3 3) (
      failure "quark" circuit_open 0 (some 10) 10
      ∷ failure "bing" circuit_open 0 (some 20) 20
      ∷ []);
  candidates = "quark" ∷ "bing" ∷ [];
  max_switches = 1;
}

selects_bing : (select_for micros router true none ("sogou" ∷ []) 0).selected_provider ≡ some bing
unfolding select_for run new_tracker record_success record_failure tracked new_record succeed fail
    get put rank sort_ranked insert_ranked state_of unique
selects_bing = refl

quark_is_usable : is_blocked (state_of micros router.health quark) ≡ false
unfolding run new_tracker record_success record_failure tracked new_record succeed fail get put
    state_of
quark_is_usable = refl

selects_none : (select_for micros exhausted false none [] 0).selected_provider ≡ none
unfolding select_for run new_tracker record_failure tracked new_record fail get put rank sort_ranked
    insert_ranked state_of unique
selects_none = refl

selection_admissible_example :
    (contains bing router.candidates ≡ true)
    × (contains bing ("sogou" ∷ []) ≡ false)
    × (is_blocked (state_of micros router.health bing) ≡ false)
    × ((select_for micros router true none ("sogou" ∷ []) 0).health_state
        ≡ some (state_of micros router.health bing))
    × (bing ≢ primary_of router.candidates → 0 < router.max_switches)
selection_admissible_example =
    selection_admissible micros router true none ("sogou" ∷ []) 0 bing selects_bing

selection_preferred_example :
    tier true (state_of micros router.health bing) ≤ tier true (state_of micros router.health quark)
selection_preferred_example =
    selection_preferred micros router true none ("sogou" ∷ []) 0 bing quark selects_bing refl refl
      quark_is_usable

refusal_justified_example :
    ((q : String)
      → contains q exhausted.candidates ≡ true
      → (contains q [] || is_blocked (state_of micros exhausted.health q)) ≡ true)
    ⊎ (exhausted.max_switches ≤ 0)
refusal_justified_example = refusal_justified micros exhausted false none [] 0 selects_none

-- a circuit that opens, and a timeout a second later
abbrev opened_circuit : Failure ℕ
opened_circuit = record { type = circuit_open; latency_ms = 0; when = some 20; clock = 20 }

abbrev timed_out : Failure ℕ
timed_out = record { type = timeout; latency_ms = 900000; when = some 1000020; clock = 1000020 }

abbrev fresh : Tracker ℕ
fresh = record {
  records = [];
  cooldown_time = 15000000;
  unavailable_streak = 3;
  max_probe_failures = 3;
}

bing_is_new : (tracked micros fresh bing 20).state ≢ cooldown
unfolding tracked get new_record
bing_is_new e = absurd (cc e)

two_failures_are_few : suc (suc (tracked micros fresh bing 20).failure_streak) < 3
unfolding tracked get new_record
two_failures_are_few = omega arith

further_failure_lifts_bar_example :
    let barred = call micros fresh (failed micros bing opened_circuit) in
    let lifted = call micros barred (failed micros bing timed_out) in
    ((select_for micros (lone_router micros barred bing 1) false none [] 0).selected_provider
      ≡ none)
    × ((select_for micros (lone_router micros lifted bing 1) false none [] 0).selected_provider
        ≡ some bing)
    × (state_of micros lifted bing ≡ degraded)
    × (Option.map (λ r. r.cooldown_until) (get bing lifted.records)
        ≡ some (some (20 + fresh.cooldown_time)))
further_failure_lifts_bar_example =
    further_failure_lifts_bar micros fresh bing opened_circuit timed_out 1 0 false none refl refl
      bing_is_new two_failures_are_few
