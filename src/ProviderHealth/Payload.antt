-- ===== src/ProviderHealth/Payload.antt =====
-- `to_payload` and `from_payload` of apps/api/app/domain/provider_health.py: the health that is
-- stored between the steps of a run. The integers of a payload are not negative, as all those that
-- `to_payload` writes.
pub mod RoundTrip
mod Examples
use deep_research_agent.Common.{
  ℕ, ◌-◌, ◌≡◌, Bool, true, false, Option, none, some, List, [], ◌∷◌, map, String, string_eq, ◌==◌,
  if◌then◌else◌, length, drop,
}
use deep_research_agent.Common.Floats.{Floats}
use deep_research_agent.Common.Dict.{get, put}
use deep_research_agent.ProviderHealth.Data.{
  ProviderHealthState, healthy, degraded, unavailable, cooldown, disabled_for_run, ProviderRecord,
  new_record, recent_window,
}
use deep_research_agent.ProviderHealth.Tracker.{Tracker, new_tracker, or_now}

-- a value of a payload; of a list only the truth values of its elements are read
pub data PayloadValue (F : Type 0) : Type 0 where
  null : PayloadValue F
  boolean : Bool → PayloadValue F
  count : ℕ → PayloadValue F
  float : F → PayloadValue F
  text : String → PayloadValue F
  items : List Bool → PayloadValue F

-- What the standard library's `datetime` does: a text of a time, and the time of a text, `none`
-- being a `ValueError`. The text of a time is read back.
pub record Times : Type 0 where
  pub isoformat : ℕ → String
  pub fromisoformat : String → Option ℕ
  pub fromisoformat-isoformat : (t : ℕ) → fromisoformat (isoformat t) ≡ some t
  pub isoformat-nonempty : (t : ℕ) → (isoformat t == "") ≡ false

abbrev pub state_value : ProviderHealthState → String
state_value healthy = "healthy"
state_value degraded = "degraded"
state_value unavailable = "unavailable"
state_value cooldown = "cooldown"
state_value ProviderHealthState.unknown = "unknown"
state_value disabled_for_run = "disabled_for_run"

-- `ProviderHealthState(value)`, and `UNKNOWN` in place of a `ValueError`
unfoldable pub state_named : String → ProviderHealthState
state_named s =
    if s == "healthy"
    then healthy
    else if s == "degraded"
    then degraded
    else if s == "unavailable"
    then unavailable
    else if s == "cooldown"
    then cooldown
    else if s == "disabled_for_run"
    then disabled_for_run
    else ProviderHealthState.unknown

module _ {F : Type 0} where
  -- `_state_from_value`
  abbrev pub state_from_value : Option (PayloadValue F) → ProviderHealthState
  state_from_value (some (text s)) = state_named s
  state_from_value _ = ProviderHealthState.unknown

  -- `_int`
  abbrev pub int_from : Option (PayloadValue F) → ℕ
  int_from (some (count n)) = n
  int_from _ = 0

  -- `recent[-_RECENT_WINDOW:]`, for a value that is a list
  abbrev pub recent_from : Option (PayloadValue F) → List Bool
  recent_from (some (items bs)) = drop (length bs - recent_window) bs
  recent_from _ = []

  module _ (times : Times) where
    open times use {isoformat, fromisoformat}

    -- `t.isoformat() if t else None`
    abbrev pub time_value : Option ℕ → PayloadValue F
    time_value none = null
    time_value (some t) = text (isoformat t)

    -- `_datetime`
    abbrev pub datetime_from : Option (PayloadValue F) → Option ℕ
    datetime_from (some (text s)) = if s == "" then none else fromisoformat s
    datetime_from _ = none

    -- `_ProviderRecord.to_payload`
    unfoldable pub record_to_payload : ProviderRecord F → List (String × PayloadValue F)
    record_to_payload r =
        ("state", text (state_value r.state))
        ∷ ("success_count", count r.success_count)
        ∷ ("failure_count", count r.failure_count)
        ∷ ("timeout_count", count r.timeout_count)
        ∷ ("unresponsive_count", count r.unresponsive_count)
        ∷ ("success_streak", count r.success_streak)
        ∷ ("failure_streak", count r.failure_streak)
        ∷ ("probe_failure_streak", count r.probe_failure_streak)
        ∷ ("recent", items r.recent)
        ∷ ("latency_sum", float r.latency_sum)
        ∷ ("latency_count", count r.latency_count)
        ∷ ("last_success_at", time_value r.last_success_at)
        ∷ ("last_failure_at", time_value r.last_failure_at)
        ∷ ("cooldown_until", time_value r.cooldown_until)
        ∷ ("updated_at", text (isoformat r.updated_at))
        ∷ []

module _ (fl : Floats) (times : Times) where
  open fl use {F, decimal}

  -- `_float`
  abbrev pub float_from : Option (PayloadValue F) → F
  float_from (some (count n)) = decimal n 0
  float_from (some (float x)) = x
  float_from _ = decimal 0 0

  -- `_ProviderRecord.from_payload`; `clock` is what `datetime.now(UTC)` returns
  unfoldable pub record_from_payload :
      String → List (String × PayloadValue F) → (clock : ℕ) → ProviderRecord F
  unfolding get
  record_from_payload name payload clock = record {
    provider_name = name;
    state = state_from_value (get "state" payload);
    success_count = int_from (get "success_count" payload);
    failure_count = int_from (get "failure_count" payload);
    timeout_count = int_from (get "timeout_count" payload);
    unresponsive_count = int_from (get "unresponsive_count" payload);
    success_streak = int_from (get "success_streak" payload);
    failure_streak = int_from (get "failure_streak" payload);
    probe_failure_streak = int_from (get "probe_failure_streak" payload);
    recent = recent_from (get "recent" payload);
    latency_sum = float_from (get "latency_sum" payload);
    latency_count = int_from (get "latency_count" payload);
    last_success_at = datetime_from times (get "last_success_at" payload);
    last_failure_at = datetime_from times (get "last_failure_at" payload);
    cooldown_until = datetime_from times (get "cooldown_until" payload);
    updated_at = or_now (datetime_from times (get "updated_at" payload)) clock;
  }

  -- the entries of `to_payload`
  unfoldable pub records_to_payload :
      List (String × ProviderRecord F) → List (String × Option (List (String × PayloadValue F)))
  unfolding record_to_payload
  records_to_payload [] = []
  records_to_payload ((name, r) ∷ rest) =
      (name, some (record_to_payload times r)) ∷ records_to_payload rest

  -- `ProviderHealthTracker.to_payload`
  unfoldable pub to_payload : Tracker F → List (String × Option (List (String × PayloadValue F)))
  unfolding records_to_payload
  to_payload t = records_to_payload t.records

  abbrev pub restore :
      String
      → Option (List (String × PayloadValue F))
      → (clock : ℕ) → List (String × ProviderRecord F)
      → List (String × ProviderRecord F)
  restore name none clock records = records
  restore name (some payload) clock records =
      put name (record_from_payload name payload clock) records

  -- the loop of `from_payload` over the entries, of which a value that is no mapping is `none`
  unfoldable pub restore_all :
      List (String × Option (List (String × PayloadValue F)))
      → (clock : ℕ) → List (String × ProviderRecord F)
      → List (String × ProviderRecord F)
  unfolding record_from_payload put
  restore_all [] clock records = records
  restore_all ((name, payload) ∷ rest) clock records =
      restore_all rest clock (restore name payload clock records)

  -- `ProviderHealthTracker.from_payload`
  unfoldable pub from_payload :
      List (String × Option (List (String × PayloadValue F)))
      → (cooldown_time unavailable_after probes : ℕ) → (clock : ℕ) → Tracker F
  unfolding new_tracker restore_all
  from_payload payload cooldown_time unavailable_after probes clock =
      let t = new_tracker fl cooldown_time unavailable_after probes in
      record t { records = restore_all payload clock t.records }
