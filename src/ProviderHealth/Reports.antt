-- ===== src/ProviderHealth/Reports.antt =====
-- What each call changes: the updates that it returns report the transitions that it made, and
-- every other provider keeps its state.
use deep_research_agent.Common.{
  ℕ, ◌≡◌, ◌≢◌, not, Option, String, arith, if◌then◌else◌, ◌==◌, string_eq, ==_refl,
}
use deep_research_agent.Common.Floats.{Floats}
use deep_research_agent.Common.Dict.{put, get-put}
use deep_research_agent.ProviderHealth.Data.{
  ProviderFailureType, ProviderHealthState, ProviderRecord, healthy, cooldown, disabled_for_run,
  same_state, new_record,
}
use deep_research_agent.ProviderHealth.Record.{succeed, fail}
use deep_research_agent.ProviderHealth.Tracker.{
  Tracker, state_of, tracked, record_success, record_failure, or_now,
}
use deep_research_agent.ProviderHealth.Transitions.{Failure}

module _ (fl : Floats) where
  open fl use {F}

  state_of-put :
      (t : Tracker F) (name j : String) (r : ProviderRecord F)
      → state_of fl (record t { records = put name r t.records }) j
        ≡ (if name == j then r.state else state_of fl t j)
  unfolding state_of
  state_of-put t name j r = ground (arith, get-put name j r t.records)

  state-tracked :
      (t : Tracker F) (name : String) (clock : ℕ)
      → (tracked fl t name clock).state ≡ state_of fl t name
  unfolding tracked state_of new_record
  state-tracked t name clock = ground arith

  success_outcome :
      (latency : F) (now : ℕ) (r : ProviderRecord F)
      → let (r', u) = succeed fl latency now r in
        (r'.state ≡ healthy)
        × (u.previous_state ≡ r.state)
        × (u.state ≡ healthy)
        × (u.changed ≡ not (same_state r.state healthy))
  unfolding succeed
  success_outcome latency now r = ground arith

  failure_outcome :
      (c u m : ℕ) (type : ProviderFailureType) (latency : F) (now : ℕ) (r : ProviderRecord F)
      → let (r', up) = fail fl c u m type latency now r in
        (up.previous_state ≡ r.state)
        × (up.state ≡ r'.state)
        × (up.changed ≡ not (same_state r.state r'.state))
        × (r'.state ≢ healthy)
        × (r'.state ≢ cooldown)
        × (r'.state ≢ ProviderHealthState.unknown)
        × (r'.state ≡ disabled_for_run → r.state ≡ cooldown)
  unfolding fail
  failure_outcome c u m type latency now r = ground arith

  -- After a success the provider is healthy, whatever its state was, and no other provider has
  -- changed its state; the update returned names the states before and after, and says whether
  -- they differ.
  pub record_success_reports :
      (t : Tracker F) (name j : String) (latency : F) (when : Option ℕ) (clock : ℕ)
      → let (t', up) = record_success fl t name latency when clock in
        (state_of fl t' j ≡ (if name == j then healthy else state_of fl t j))
        × (up.previous_state ≡ state_of fl t name)
        × (up.state ≡ state_of fl t' name)
        × (up.changed ≡ not (same_state (state_of fl t name) healthy))
  unfolding record_success
  record_success_reports t name j latency when clock =
      let r = tracked fl t name clock in
      let r' = (succeed fl latency (or_now when clock) r).0 in
      let outcome = success_outcome latency (or_now when clock) r in
      let at_j = state_of-put t name j r' in
      let at_name = state_of-put t name name r' in
      (
        ground (arith, at_j, outcome),
        ground (arith, outcome, state-tracked t name clock),
        ground (arith, outcome, at_name, ==_refl name),
        ground (arith, outcome, state-tracked t name clock),
      )

  -- A failure leaves no provider healthy, ready for a probe or unknown; it disables only a
  -- provider that was being probed; no other provider changes its state, and the update returned
  -- names the states before and after, and says whether they differ.
  pub record_failure_reports :
      (t : Tracker F) (name j : String) (f : Failure F)
      → let (t', up) = record_failure fl t name f.type f.latency_ms f.when f.clock in
        (name ≢ j → state_of fl t' j ≡ state_of fl t j)
        × (up.previous_state ≡ state_of fl t name)
        × (up.state ≡ state_of fl t' name)
        × (up.changed ≡ not (same_state (state_of fl t name) (state_of fl t' name)))
        × (state_of fl t' name ≢ healthy)
        × (state_of fl t' name ≢ cooldown)
        × (state_of fl t' name ≢ ProviderHealthState.unknown)
        × (state_of fl t' name ≡ disabled_for_run → state_of fl t name ≡ cooldown)
  unfolding record_failure
  record_failure_reports t name j f =
      let r = tracked fl t name f.clock in
      let c = t.cooldown_time in
      let u = t.unavailable_streak in
      let m = t.max_probe_failures in
      let r' = (fail fl c u m f.type f.latency_ms (or_now f.when f.clock) r).0 in
      let out = failure_outcome c u m f.type f.latency_ms (or_now f.when f.clock) r in
      let at_name = state_of-put t name name r' in
      let old = state-tracked t name f.clock in
      let same = ==_refl name in
      (
        λ ne. ground (arith, state_of-put t name j r', string_eq.same_iff name j, ne),
        ground (arith, out, old),
        ground (arith, out, at_name, same),
        ground (arith, out, at_name, same, old),
        ground (arith, out, at_name, same),
        ground (arith, out, at_name, same),
        ground (arith, out, at_name, same),
        ground (arith, out, at_name, same, old),
      )
