-- ===== src/ProviderHealth/Record.antt =====
-- What the methods of `ProviderHealthTracker` in apps/api/app/domain/provider_health.py do to the
-- record of one provider, and the snapshot of a record.
use deep_research_agent.Common.{
  ℕ, ◌+◌, ◌-◌, Bool, true, false, not, ◌||◌, none, some, List, [], ◌∷◌, ◌++◌, String, length, drop,
  count_if, leb, if◌then◌else◌,
}
use deep_research_agent.Common.Floats.{Floats}
use deep_research_agent.ProviderHealth.Data.{
  ProviderFailureType, ProviderHealthState, healthy, degraded, unavailable, cooldown,
  disabled_for_run, same_state, ProviderRecord, ProviderHealthSnapshot, ProviderHealthUpdate,
  consecutive_success_to_healthy, failure_streak_to_degraded, recent_window, is_timeout,
  is_unresponsive_type, is_circuit_open,
}

-- `recent.append(value)` on a `deque(maxlen=_RECENT_WINDOW)`
unfoldable pub push_recent : List Bool → Bool → List Bool
push_recent recent value = let all = recent ++ value ∷ [] in drop (length all - recent_window) all

abbrev pub is_failure : Bool → Bool
is_failure b = b

module _ (fl : Floats) where
  open fl use {F, le, decimal, add, div}

  -- `latency_ms > 0`
  abbrev positive : F → Bool
  positive x = not (le x (decimal 0 0))

  unfoldable pub snapshot : ProviderRecord F → ProviderHealthSnapshot F
  snapshot r =
      let window = length r.recent in
      let recent_failures = count_if is_failure r.recent in
      record {
        provider_name = r.provider_name;
        state = r.state;
        success_count = r.success_count;
        failure_count = r.failure_count;
        timeout_count = r.timeout_count;
        unresponsive_count = r.unresponsive_count;
        recent_failure_rate =
            if leb window 0
            then decimal 0 0
            else div (decimal recent_failures 0) (decimal window 0);
        average_latency =
            if leb r.latency_count 0
            then decimal 0 0
            else div r.latency_sum (decimal r.latency_count 0);
        last_success_at = r.last_success_at;
        last_failure_at = r.last_failure_at;
        updated_at = r.updated_at;
      }

  -- `_update`
  unfoldable pub update_of :
      ProviderRecord F → ProviderHealthState → String → ProviderHealthUpdate F
  update_of r previous reason = record {
    provider_name = r.provider_name;
    previous_state = previous;
    state = r.state;
    changed = not (same_state previous r.state);
    reason = reason;
    snapshot = snapshot r;
  }

  -- `if latency_ms > 0: …`
  unfoldable pub add_latency : F → ProviderRecord F → ProviderRecord F
  add_latency latency_ms r =
      if positive latency_ms
      then record r {
        latency_sum = add r.latency_sum latency_ms;
        latency_count = r.latency_count + 1;
      }
      else r

  -- the body of `record_success`
  unfoldable pub succeed : F → ℕ → ProviderRecord F → ProviderRecord F × ProviderHealthUpdate F
  unfolding add_latency update_of push_recent
  succeed latency_ms now r =
      let previous = r.state in
      let counted = add_latency latency_ms (record r {
        success_count = r.success_count + 1;
        success_streak = r.success_streak + 1;
        failure_streak = 0;
        probe_failure_streak = 0;
        recent = push_recent r.recent false;
        last_success_at = some now;
        cooldown_until = none;
        updated_at = now;
      }) in
      let reason = if same_state previous healthy then "healthy" else "recovered_healthy" in
      let done =
        if leb consecutive_success_to_healthy counted.success_streak
        then record counted { state = healthy }
        else counted in
      (done, update_of done previous reason)

  -- the counters that `record_failure` updates before it decides on the state
  unfoldable pub count_failure : ProviderFailureType → F → ℕ → ProviderRecord F → ProviderRecord F
  unfolding add_latency push_recent
  count_failure failure_type latency_ms now r = add_latency latency_ms (record r {
    failure_count = r.failure_count + 1;
    failure_streak = r.failure_streak + 1;
    success_streak = 0;
    recent = push_recent r.recent true;
    last_failure_at = some now;
    updated_at = now;
    timeout_count = if is_timeout failure_type then r.timeout_count + 1 else r.timeout_count;
    unresponsive_count =
        if is_unresponsive_type failure_type
        then r.unresponsive_count + 1
        else r.unresponsive_count;
  })

  -- a failed probe: the branch of `record_failure` under `previous is COOLDOWN`
  unfoldable pub fail_probe :
      (cooldown_time max_probe_failures now : ℕ) → ProviderRecord F → ProviderRecord F × String
  fail_probe cooldown_time max_probe_failures now r =
      let probed = r.probe_failure_streak + 1 in
      if leb max_probe_failures probed
      then (
        record r { probe_failure_streak = probed; state = disabled_for_run; cooldown_until = none },
        "probe_failures_exceeded_disabled_for_run",
      )
      else (
        record r {
          probe_failure_streak = probed;
          state = unavailable;
          cooldown_until = some (now + cooldown_time);
        },
        "cooldown_probe_failed",
      )

  -- the rest of `record_failure`
  unfoldable pub fail_attempt :
      (cooldown_time unavailable_streak now : ℕ)
      → (circuit : Bool) → ProviderRecord F
      → ProviderRecord F × String
  fail_attempt cooldown_time unavailable_streak now circuit r =
      if circuit || leb unavailable_streak r.failure_streak
      then (
        record r { state = unavailable; cooldown_until = some (now + cooldown_time) },
        if circuit then "circuit_open_unavailable" else "failure_streak_unavailable",
      )
      else if leb failure_streak_to_degraded r.failure_streak
      then (record r { state = degraded }, "failure_streak_degraded")
      else (r, "failure_recorded")

  -- the body of `record_failure`
  unfoldable pub fail :
      (cooldown_time unavailable_streak max_probe_failures : ℕ)
      → ProviderFailureType
      → F
      → ℕ
      → ProviderRecord F
      → ProviderRecord F × ProviderHealthUpdate F
  unfolding count_failure fail_probe fail_attempt update_of
  fail cooldown_time unavailable_streak max_probe_failures failure_type latency_ms now r =
      let previous = r.state in
      let counted = count_failure failure_type latency_ms now r in
      let (done, reason) =
        if same_state previous cooldown
        then fail_probe cooldown_time max_probe_failures now counted
        else fail_attempt cooldown_time unavailable_streak now (is_circuit_open failure_type)
            counted in
      (done, update_of done previous reason)

  -- the test of `expire_cooldowns`
  abbrev pub cooled_down : ℕ → ProviderRecord F → Bool
  cooled_down moment r = elim r.cooldown_until [
    | none ↦ false
    | some until ↦ if same_state r.state unavailable then leb until moment else false
  ]

  -- the body of the loop in `expire_cooldowns`
  unfoldable pub expire : ℕ → ProviderRecord F → ProviderRecord F
  expire moment r =
      if cooled_down moment r then record r { state = cooldown; updated_at = moment } else r
