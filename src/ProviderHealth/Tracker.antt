-- ===== src/ProviderHealth/Tracker.antt =====
-- `ProviderHealthTracker` of apps/api/app/domain/provider_health.py: the records of all providers.
-- A method returns the new tracker beside its result. `clock` is what `datetime.now(UTC)` returns.
use deep_research_agent.Common.{
  ℕ, max, Option, none, some, List, [], ◌∷◌, map, String, string_eq, if◌then◌else◌,
}
use deep_research_agent.Common.Floats.{Floats}
use deep_research_agent.Common.Dict.{get, put, values}
use deep_research_agent.ProviderHealth.Data.{
  ProviderFailureType, ProviderHealthState, ProviderRecord, ProviderHealthSnapshot,
  ProviderHealthUpdate, new_record,
}
use deep_research_agent.ProviderHealth.Record.{
  snapshot, succeed, fail, expire, cooled_down, update_of,
}

pub record Tracker (F : Type 0) : Type 0 where
  pub records : List (String × ProviderRecord F)
  pub cooldown_time : ℕ
  pub unavailable_streak : ℕ
  pub max_probe_failures : ℕ

abbrev pub or_now : Option ℕ → ℕ → ℕ
or_now none clock = clock
or_now (some t) clock = t

module _ (fl : Floats) where
  open fl use {F}

  -- `__init__`
  unfoldable pub new_tracker : (cooldown_time unavailable probes : ℕ) → Tracker F
  new_tracker cooldown_time unavailable probes = record {
    records = [];
    cooldown_time = cooldown_time;
    unavailable_streak = max 1 unavailable;
    max_probe_failures = max 1 probes;
  }

  abbrev pub state_or_unknown : Option (ProviderRecord F) → ProviderHealthState
  state_or_unknown none = ProviderHealthState.unknown
  state_or_unknown (some r) = r.state

  unfoldable pub state_of : Tracker F → String → ProviderHealthState
  state_of t name = state_or_unknown (get name t.records)

  -- `self._records.setdefault(name, _ProviderRecord(provider_name=name))`
  abbrev pub record_or_new : Option (ProviderRecord F) → String → ℕ → ProviderRecord F
  record_or_new none name clock = new_record fl name clock
  record_or_new (some r) name clock = r

  unfoldable pub tracked : Tracker F → String → ℕ → ProviderRecord F
  tracked t name clock = record_or_new (get name t.records) name clock

  -- `snapshot`: of an unknown provider it is that of a new record
  unfoldable pub snapshot_of : Tracker F → String → ℕ → ProviderHealthSnapshot F
  unfolding tracked
  snapshot_of t name clock = snapshot fl (tracked t name clock)

  unfoldable pub snapshots : Tracker F → List (ProviderHealthSnapshot F)
  snapshots t = map (snapshot fl) (values t.records)

  unfoldable pub record_success :
      Tracker F → String → F → Option ℕ → ℕ → Tracker F × ProviderHealthUpdate F
  unfolding tracked
  record_success t name latency_ms when clock =
      let (r, u) = succeed fl latency_ms (or_now when clock) (tracked t name clock) in
      (record t { records = put name r t.records }, u)

  unfoldable pub record_failure :
      Tracker F
      → String
      → ProviderFailureType
      → F
      → Option ℕ
      → ℕ
      → Tracker F × ProviderHealthUpdate F
  unfolding tracked
  record_failure t name failure_type latency_ms when clock =
      let (r, u) =
        fail fl t.cooldown_time t.unavailable_streak t.max_probe_failures failure_type latency_ms
          (or_now when clock) (tracked t name clock) in
      (record t { records = put name r t.records }, u)

  -- the loop of `expire_cooldowns` over the records
  unfoldable pub expire_all :
      ℕ → List (String × ProviderRecord F) → List (String × ProviderRecord F)
  expire_all moment [] = []
  expire_all moment ((k, r) ∷ rest) = (k, expire fl moment r) ∷ expire_all moment rest

  -- the updates that the loop appends
  unfoldable pub expiry_updates :
      ℕ → List (String × ProviderRecord F) → List (ProviderHealthUpdate F)
  expiry_updates moment [] = []
  expiry_updates moment ((k, r) ∷ rest) =
      let others = expiry_updates moment rest in
      if cooled_down fl moment r
      then update_of fl (expire fl moment r) r.state "cooldown_expired_ready_to_probe" ∷ others
      else others

  unfoldable pub expire_cooldowns :
      Tracker F → Option ℕ → ℕ → Tracker F × List (ProviderHealthUpdate F)
  unfolding expire_all expiry_updates
  expire_cooldowns t now clock =
      let moment = or_now now clock in
      (record t { records = expire_all moment t.records }, expiry_updates moment t.records)
