-- ===== src/ProviderHealth/Transitions.antt =====
-- The state machine of one provider: which state an attempt or an expiry leads to.
use deep_research_agent.Common.{
  ℕ, suc, ◌+◌, max, ◌≡◌, ◌≢◌, refl, ◌∙◌, ap, false, Option, some, List, [], ◌∷◌, String, arith, leb,
  if◌then◌else◌, length, All, map, string_eq, ==_refl,
}
use deep_research_agent.Common.Floats.{Floats}
use deep_research_agent.Common.Dict.{get, put, get-put}
use deep_research_agent.ProviderHealth.Data.{
  ProviderFailureType, ProviderRecord, degraded, unavailable, cooldown, is_circuit_open, new_record,
}
use deep_research_agent.ProviderHealth.Record.{fail}
use deep_research_agent.ProviderHealth.Tracker.{
  Tracker, new_tracker, state_of, state_or_unknown, tracked, record_or_new, record_failure, or_now,
}
use deep_research_agent.ProviderHealth.Runs.{Call, failure, call, run}

-- One failed attempt: the arguments of `record_failure` but the name, and the clock.
pub record Failure (F : Type 0) : Type 0 where
  pub type : ProviderFailureType
  pub latency_ms : F
  pub when : Option ℕ
  pub clock : ℕ

abbrev pub NoCircuitOpen : {F : Type 0} → Failure F → Type 0
NoCircuitOpen f = is_circuit_open f.type ≡ false

module _ (fl : Floats) where
  open fl use {F}

  abbrev pub failed : String → Failure F → Call F
  failed name f = failure name f.type f.latency_ms f.when f.clock

  -- the record after consecutive failures
  pub fail_all : (c u m : ℕ) → List (Failure F) → ProviderRecord F → ProviderRecord F
  fail_all c u m [] r = r
  fail_all c u m (f ∷ fs) r =
      fail_all c u m fs (fail fl c u m f.type f.latency_ms (or_now f.when f.clock) r).0

  fail_step :
      (c u m : ℕ) (f : Failure F) (r : ProviderRecord F)
      → NoCircuitOpen f
      → r.state ≢ cooldown
      → let r' = (fail fl c u m f.type f.latency_ms (or_now f.when f.clock) r).0 in
        (r'.failure_streak ≡ suc r.failure_streak)
        × (r'.state ≡ (if leb u (suc r.failure_streak) then unavailable else degraded))
  unfolding fail
  fail_step c u m f r n h = ground arith

  fail_all-state :
      (c u m : ℕ) (fs : List (Failure F)) (r : ProviderRecord F)
      → All NoCircuitOpen fs
      → (r.state ≡ (if leb u r.failure_streak then unavailable else degraded))
      → (fail_all c u m fs r).state
        ≡ (if leb u (r.failure_streak + length fs) then unavailable else degraded)
  unfolding fail_all
  fail_all-state c u m [] r n h = ground arith
  fail_all-state c u m (f ∷ fs) r n h =
      let r' = (fail fl c u m f.type f.latency_ms (or_now f.when f.clock) r).0 in
      let step = fail_step c u m f r n.0 (λ e. ground arith) in
      ground (arith, step, fail_all-state c u m fs r' n.1)

  -- one failure of a provider whose record is known
  record_failure-known :
      (t : Tracker F) (name : String) (f : Failure F) (r : ProviderRecord F)
      → get name t.records ≡ some r
      → call fl t (failed name f) ≡ (record t {
        records =
            put name
              (fail fl t.cooldown_time t.unavailable_streak t.max_probe_failures f.type f.latency_ms
                (or_now f.when f.clock)
                r).0
              t.records;
      })
  unfolding record_failure tracked
  record_failure-known t name f r h =
      ap
        (λ o. record t {
          records =
              put name
                (fail fl t.cooldown_time t.unavailable_streak t.max_probe_failures f.type
                  f.latency_ms (or_now f.when f.clock) (record_or_new fl o name f.clock)).0
                t.records;
        })
        h

  run-failed :
      (t : Tracker F) (name : String) (fs : List (Failure F)) (r : ProviderRecord F)
      → get name t.records ≡ some r
      → get name (run fl t (map (failed name) fs)).records
        ≡ some (fail_all t.cooldown_time t.unavailable_streak t.max_probe_failures fs r)
  unfolding run fail_all
  run-failed t name [] r h = h
  run-failed t name (f ∷ fs) r h =
      let r' =
        (fail fl t.cooldown_time t.unavailable_streak t.max_probe_failures f.type f.latency_ms
          (or_now f.when f.clock) r).0 in
      ap (λ (s : Tracker F). get name (run fl s (map (failed name) fs)).records)
        (record_failure-known t name f r h)
      ∙ run-failed (record t { records = put name r' t.records }) name fs r'
          (rw (get-put name name r' t.records, ==_refl name) refl)

  first_failed :
      (c u m : ℕ) (name : String) (f : Failure F) (fs : List (Failure F))
      → All NoCircuitOpen (f ∷ fs)
      → let r =
          (fail fl c u m f.type f.latency_ms
            (or_now f.when f.clock)
            (new_record fl name f.clock)).0 in
        (fail_all c u m fs r).state ≡ (if leb u (suc (length fs)) then unavailable else degraded)
  first_failed c u m name f fs n =
      let r = new_record fl name f.clock in
      let r' = (fail fl c u m f.type f.latency_ms (or_now f.when f.clock) r).0 in
      let step = fail_step c u m f r n.0 (unfold new_record in λ e. cc) in
      let rest = fail_all-state c u m fs r' n.1 in unfold new_record in ground (arith, step, rest)

  -- A provider that has only failed, by anything but an open circuit, is unavailable if the
  -- failures have reached the threshold, and degraded before.
  pub state_of-failures :
      (cooldown_time threshold probes : ℕ) (name : String) (f : Failure F) (fs : List (Failure F))
      → All NoCircuitOpen (f ∷ fs)
      → state_of fl
          (run fl (new_tracker fl cooldown_time threshold probes) (map (failed name) (f ∷ fs)))
          name
        ≡ (if leb (max 1 threshold) (suc (length fs)) then unavailable else degraded)
  unfolding state_of new_tracker run record_failure fail_all new_record get
  state_of-failures c u m name f fs n =
      let t = new_tracker fl c u m in
      let r = tracked fl t name f.clock in
      let r' = (fail fl c (max 1 u) (max 1 m) f.type f.latency_ms (or_now f.when f.clock) r).0 in
      let found =
        run-failed (record t { records = put name r' t.records }) name fs r'
          (rw (get-put name name r' t.records, ==_refl name) refl) in
      ap (state_or_unknown fl) found ∙ first_failed c (max 1 u) (max 1 m) name f fs n
