-- ===== src/ProviderHealth/Examples.antt =====
-- The tracker at work on small runs.
use deep_research_agent.Common.{
  ℕ, ◌+◌, ◌≡◌, refl, Option, none, some, List, [], ◌∷◌, String, string_eq, arith, leb,
  if◌then◌else◌, length,
}
use deep_research_agent.Common.Micros.{micros}
use deep_research_agent.Common.Dict.{get, put}
use deep_research_agent.ProviderHealth.Data.{
  timeout, circuit_open, network_error, ProviderHealthState, ProviderRecord, unavailable, cooldown,
  disabled_for_run, new_record,
}
use deep_research_agent.ProviderHealth.Record.{fail, expire}
use deep_research_agent.ProviderHealth.Tracker.{
  Tracker, new_tracker, state_of, tracked, record_failure, or_now,
}
use deep_research_agent.ProviderHealth.Runs.{
  Call, success, failure, expiry, call, run, AllSound, run-AllSound,
}
use deep_research_agent.ProviderHealth.Transitions.{Failure, failed}
use deep_research_agent.ProviderHealth.Cooldown.{
  Probe, probe_all, cooldown_exact, probes_disable, disabled_rearms,
}

abbrev bing : String
bing = "bing"

abbrev baidu : String
baidu = "baidu"

abbrev slow : ℕ → Failure ℕ
slow at = record { type = timeout; latency_ms = 900000; when = some at; clock = at }

abbrev opened_circuit : ℕ → Failure ℕ
opened_circuit at = record { type = circuit_open; latency_ms = 0; when = none; clock = at }

abbrev fresh : Tracker ℕ
fresh = new_tracker micros 15000000 3 3

-- a success, a failure, an open circuit, and an expiry
abbrev calls : List (Call ℕ)
calls =
    success "bing" 300000 (some 10) 10
    ∷ failure "bing" network_error 0 none 20
    ∷ failure "baidu" circuit_open 0 (some 30) 30
    ∷ expiry (some 15000030) 40
    ∷ []

abbrev at_work : Tracker ℕ
at_work = run micros fresh calls

-- a record in the state, after failures, with its deadline
abbrev failing : ProviderHealthState → ℕ → Option ℕ → ProviderRecord ℕ
failing state failures deadline = record {
  provider_name = "bing";
  state = state;
  success_count = 0;
  failure_count = failures;
  timeout_count = failures;
  unresponsive_count = 0;
  success_streak = 0;
  failure_streak = failures;
  probe_failure_streak = 0;
  recent = [];
  latency_sum = 0;
  latency_count = 0;
  last_success_at = none;
  last_failure_at = some 20;
  cooldown_until = deadline;
  updated_at = 20;
}

abbrev resting : Tracker ℕ
resting = record fresh { records = ("bing", failing unavailable 3 (some 15000020)) ∷ [] }

abbrev probe_at : ℕ → Probe micros
probe_at at = record { attempt = slow at; moment = at + 16000000 }

abbrev two_probes : List (Probe micros)
two_probes = probe_at 100000000 ∷ probe_at 200000000 ∷ []

run-AllSound_example : AllSound micros (run micros (new_tracker micros 15000000 3 3) calls)
run-AllSound_example = run-AllSound micros 15000000 3 3 calls

opens :
    state_of micros (call micros fresh (failed micros bing (opened_circuit 20))) "bing"
    ≡ unavailable
unfolding state_of record_failure new_tracker tracked get put fail new_record
opens = refl

cooldown_exact_example :
    let t' = call micros fresh (failed micros bing (opened_circuit 20)) in
    state_of micros (call micros t' (expiry (some 15000020) 0)) bing ≡ (
      if leb
        (or_now (opened_circuit 20).when (opened_circuit 20).clock + fresh.cooldown_time)
        15000020
      then cooldown
      else unavailable)
cooldown_exact_example = cooldown_exact micros fresh bing (opened_circuit 20) 15000020 0 opens

probes_disable_example :
    (probe_all micros 15000000 3 3 two_probes (failing cooldown 4 none)).state ≡ (
      if leb 3 ((failing cooldown 4 none).probe_failure_streak + length two_probes)
      then disabled_for_run
      else cooldown)
probes_disable_example =
    probes_disable micros 15000000 3 3 two_probes (failing cooldown 4 none) refl (omega arith)
      (omega arith, (omega arith, tt)) (omega arith)

disabled_rearms_example :
    let r' =
      (fail micros 15000000 3 3
        (slow 30).type
        (slow 30).latency_ms
        (or_now (slow 30).when (slow 30).clock)
        (failing disabled_for_run 6 none)).0 in
    (r'.state ≡ unavailable) × ((expire micros 15000099 r').state ≡ cooldown)
disabled_rearms_example =
    disabled_rearms micros 15000000 3 3 15000099 (slow 30) (failing disabled_for_run 6 none) refl
      (omega arith) (omega arith)

is_resting : get "bing" resting.records ≡ some (failing unavailable 3 (some 15000020))
unfolding get
is_resting = refl
