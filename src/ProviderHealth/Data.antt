-- ===== src/ProviderHealth/Data.antt =====
-- The enumerations, constants and records of apps/api/app/domain/provider_health.py, and the
-- failure types of apps/api/app/domain/provider_failure_classification.py.
-- A `datetime` is its number of microseconds, and so is a `timedelta`.
use deep_research_agent.Common.{ℕ, Bool, true, false, Option, none, List, [], String}
use deep_research_agent.Common.Floats.{Floats}

pub data ProviderFailureType : Type 0 where
  timeout unresponsive rate_limit network_error server_error empty_response circuit_open unknown :
      ProviderFailureType

pub data ProviderHealthState : Type 0 where
  healthy degraded unavailable cooldown unknown disabled_for_run : ProviderHealthState

abbrev pub same_state : ProviderHealthState → ProviderHealthState → Bool
same_state healthy healthy = true
same_state degraded degraded = true
same_state unavailable unavailable = true
same_state cooldown cooldown = true
same_state unknown unknown = true
same_state disabled_for_run disabled_for_run = true
same_state _ _ = false

abbrev pub consecutive_success_to_healthy : ℕ
consecutive_success_to_healthy = 1

abbrev pub failure_streak_to_degraded : ℕ
failure_streak_to_degraded = 1

abbrev pub failure_streak_to_unavailable : ℕ
failure_streak_to_unavailable = 3

-- 15.0 seconds
abbrev pub provider_cooldown : ℕ
provider_cooldown = 15000000

abbrev pub default_max_probe_failures : ℕ
default_max_probe_failures = 3

abbrev pub recent_window : ℕ
recent_window = 10

abbrev pub is_unresponsive_type : ProviderFailureType → Bool
is_unresponsive_type unresponsive = true
is_unresponsive_type empty_response = true
is_unresponsive_type _ = false

abbrev pub is_timeout : ProviderFailureType → Bool
is_timeout timeout = true
is_timeout _ = false

abbrev pub is_circuit_open : ProviderFailureType → Bool
is_circuit_open circuit_open = true
is_circuit_open _ = false

-- `_ProviderRecord`, over the type of the latencies
pub record ProviderRecord (F : Type 0) : Type 0 where
  pub provider_name : String
  pub state : ProviderHealthState
  pub success_count : ℕ
  pub failure_count : ℕ
  pub timeout_count : ℕ
  pub unresponsive_count : ℕ
  pub success_streak : ℕ
  pub failure_streak : ℕ
  pub probe_failure_streak : ℕ
  pub recent : List Bool
  pub latency_sum : F
  pub latency_count : ℕ
  pub last_success_at : Option ℕ
  pub last_failure_at : Option ℕ
  pub cooldown_until : Option ℕ
  pub updated_at : ℕ

pub record ProviderHealthSnapshot (F : Type 0) : Type 0 where
  pub provider_name : String
  pub state : ProviderHealthState
  pub success_count : ℕ
  pub failure_count : ℕ
  pub timeout_count : ℕ
  pub unresponsive_count : ℕ
  pub recent_failure_rate : F
  pub average_latency : F
  pub last_success_at : Option ℕ
  pub last_failure_at : Option ℕ
  pub updated_at : ℕ

pub record ProviderHealthUpdate (F : Type 0) : Type 0 where
  pub provider_name : String
  pub previous_state : ProviderHealthState
  pub state : ProviderHealthState
  pub changed : Bool
  pub reason : String
  pub snapshot : ProviderHealthSnapshot F

-- `_ProviderRecord(provider_name=…)`, whose `updated_at` is what the clock shows
unfoldable pub new_record : (fl : Floats) → String → ℕ → ProviderRecord fl.F
new_record fl name clock = record {
  provider_name = name;
  state = ProviderHealthState.unknown;
  success_count = 0;
  failure_count = 0;
  timeout_count = 0;
  unresponsive_count = 0;
  success_streak = 0;
  failure_streak = 0;
  probe_failure_streak = 0;
  recent = [];
  latency_sum = fl.decimal 0 0;
  latency_count = 0;
  last_success_at = none;
  last_failure_at = none;
  cooldown_until = none;
  updated_at = clock;
}
