-- ===== src/ProviderHealth/Invariant.antt =====
-- What holds of the record of one provider, whatever the tracker did to it.
use deep_research_agent.Common.{
  ℕ, ◌+◌, ◌-◌, ◌≤◌, ◌<◌, ◌≡◌, ◌≢◌, ◌⊎◌, Bool, true, false, none, List, [], ◌∷◌, ◌++◌, String,
  length, length-drop, arith,
}
use deep_research_agent.Common.Floats.{Floats}
use deep_research_agent.ProviderHealth.Data.{
  ProviderFailureType, ProviderHealthState, healthy, degraded, unavailable, cooldown,
  disabled_for_run, ProviderRecord, new_record, recent_window,
}
use deep_research_agent.ProviderHealth.Record.{push_recent, succeed, fail, expire}

pub length-push_recent : (xs : List Bool) (b : Bool) → length (push_recent xs b) ≤ recent_window
unfolding push_recent
length-push_recent xs b = omega (arith, length-drop (length (xs ++ b ∷ []) - 10) (xs ++ b ∷ []))

-- `u` and `m` are the tracker's `_unavailable_streak` and `_max_probe_failures`.
pub record IsSound {F : Type 0} (u m : ℕ) (r : ProviderRecord F) : Type 0 where
  pub streaks_apart : (r.success_streak ≡ 0) ⊎ (r.failure_streak ≡ 0)
  pub successes : r.success_streak ≤ r.success_count
  pub failures : r.failure_streak ≤ r.failure_count
  pub probes : r.probe_failure_streak ≤ r.failure_streak
  pub classified : r.timeout_count + r.unresponsive_count ≤ r.failure_count
  pub timed : r.latency_count ≤ r.success_count + r.failure_count
  pub window : length r.recent ≤ recent_window
  pub unknown_is_new : r.state ≡ ProviderHealthState.unknown → r.success_count + r.failure_count ≡ 0
  pub healthy_is_clean : r.state ≡ healthy → (r.failure_streak ≡ 0) × (r.cooldown_until ≡ none)
  pub degraded_is_short : r.state ≡ degraded → (0 < r.failure_streak) × (r.failure_streak < u)
  pub unavailable_is_timed :
      r.state ≡ unavailable → (0 < r.failure_streak) × (r.cooldown_until ≢ none)
  pub cooldown_is_failing : r.state ≡ cooldown → 0 < r.failure_streak
  pub disabled_is_exhausted :
      r.state ≡ disabled_for_run → (m ≤ r.probe_failure_streak) × (r.cooldown_until ≡ none)

module _ (fl : Floats) (u m : ℕ) where
  open fl use {F}

  pub new_record-IsSound : (name : String) (clock : ℕ) → IsSound u m (new_record fl name clock)
  unfolding new_record
  new_record-IsSound name clock = ground arith

  pub succeed-IsSound :
      (latency : F) (now : ℕ) (r : ProviderRecord F)
      → IsSound u m r
      → IsSound u m (succeed fl latency now r).0
  unfolding succeed
  succeed-IsSound latency now r h = ground (arith, length-push_recent r.recent false)

  pub fail-IsSound :
      (cooldown_time : ℕ) (t : ProviderFailureType) (latency : F) (now : ℕ) (r : ProviderRecord F)
      → IsSound u m r
      → IsSound u m (fail fl cooldown_time u m t latency now r).0
  unfolding fail
  fail-IsSound c t latency now r h = ground (arith, length-push_recent r.recent true)

  pub expire-IsSound :
      (moment : ℕ) (r : ProviderRecord F) → IsSound u m r → IsSound u m (expire fl moment r)
  unfolding expire
  expire-IsSound moment r h = ground arith
