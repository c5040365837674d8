-- ===== src/ProviderExecutor/Failures.antt =====
-- apps/api/app/domain/provider_failure_classification.py, whose failure types are in
-- `ProviderHealth.Data`.
use deep_research_agent.Common.{
  ◌≡◌, refl, true, false, ◌||◌, Option, none, some, String, string_eq, ◌==◌, ltb, if◌then◌else◌,
  Result, ok, raise, ◌>>=◌,
}
use deep_research_agent.Common.Floats.{Floats}
use deep_research_agent.Common.Text.{occurs_in}
use deep_research_agent.Common.Values.{
  ℤ, pos, clip, Value, null, boolean, integer, float, text, sequence, mapping, Fields, end, lookup,
  or_default, truthy, Conversions,
}
use deep_research_agent.ProviderHealth.Data.{
  ProviderFailureType, timeout, unresponsive, rate_limit, network_error, server_error,
  empty_response, circuit_open,
}

pub data RetryDecision : Type 0 where
  retry fallback stop : RetryDecision

-- the `ValueError` and the `TypeError` of `int(…)`
pub data CountError : Type 0 where
  count_not_readable : CountError

-- `ProviderFailureType(value)`; `none` is a `ValueError`
unfoldable pub failure_named : String → Option ProviderFailureType
failure_named s =
    if s == "timeout"
    then some timeout
    else if s == "unresponsive"
    then some unresponsive
    else if s == "rate_limit"
    then some rate_limit
    else if s == "network_error"
    then some network_error
    else if s == "server_error"
    then some server_error
    else if s == "empty_response"
    then some empty_response
    else if s == "circuit_open"
    then some circuit_open
    else if s == "unknown"
    then some ProviderFailureType.unknown
    else none

abbrev pub failure_value : ProviderFailureType → String
failure_value timeout = "timeout"
failure_value unresponsive = "unresponsive"
failure_value rate_limit = "rate_limit"
failure_value network_error = "network_error"
failure_value server_error = "server_error"
failure_value empty_response = "empty_response"
failure_value circuit_open = "circuit_open"
failure_value ProviderFailureType.unknown = "unknown"

-- A type is read back from its value.
pub failure_named-failure_value :
    (t : ProviderFailureType) → failure_named (failure_value t) ≡ some t
unfolding failure_named
failure_named-failure_value timeout = refl
failure_named-failure_value unresponsive = refl
failure_named-failure_value rate_limit = refl
failure_named-failure_value network_error = refl
failure_named-failure_value server_error = refl
failure_named-failure_value empty_response = refl
failure_named-failure_value circuit_open = refl
failure_named-failure_value ProviderFailureType.unknown = refl

-- the classification by the error code, once `casefold` has been applied
unfoldable pub classify_code : String → ProviderFailureType
unfolding occurs_in
classify_code normalized =
    if occurs_in "timeout" normalized
    then timeout
    else if occurs_in "rate" normalized || occurs_in "429" normalized
    then rate_limit
    else if occurs_in "network" normalized || occurs_in "connect" normalized
    then network_error
    else if occurs_in "empty" normalized
    then empty_response
    else if occurs_in "circuit" normalized
    then circuit_open
    else if occurs_in "server" normalized || occurs_in "http" normalized || occurs_in "5" normalized
    then server_error
    else ProviderFailureType.unknown

unfoldable pub retry_decision : ProviderFailureType → RetryDecision
retry_decision timeout = retry
retry_decision unresponsive = retry
retry_decision rate_limit = retry
retry_decision network_error = retry
retry_decision server_error = retry
retry_decision circuit_open = fallback
retry_decision empty_response = fallback
retry_decision ProviderFailureType.unknown = stop

module _ (fl : Floats) (conv : Conversions fl) (casefold : String → String) where
  open fl use {F}

  abbrev pub or_unreadable : Option ℤ → Result CountError ℤ
  or_unreadable none = raise count_not_readable
  or_unreadable (some n) = ok n

  -- `int(value)`
  abbrev pub int_of : Value F → Result CountError ℤ
  int_of (integer n) = ok n
  int_of (boolean true) = ok (pos 1)
  int_of (boolean false) = ok (pos 0)
  int_of (float x) = ok (conv.int_of_float x)
  int_of (text s) = or_unreadable (conv.int_of_text s)
  int_of null = raise count_not_readable
  int_of (sequence xs) = raise count_not_readable
  int_of (mapping m) = raise count_not_readable

  -- `value or 0`
  abbrev pub or_zero : Value F → Value F
  or_zero v = if truthy fl v then v else integer (pos 0)

  -- the type of a fallback failure, for its `metrics`
  unfoldable pub classify_fallback : Option (Value F) → Result CountError ProviderFailureType
  unfolding lookup
  classify_fallback (some (mapping metrics)) = do
    n ← int_of (or_zero (or_default (lookup "empty_response_count" metrics) (integer (pos 0))))
    ok (if ltb 0 (clip n) then empty_response else circuit_open)
  classify_fallback _ = ok circuit_open

  abbrev pub or_code : Option ProviderFailureType → (error_code : String) → ProviderFailureType
  or_code (some t) error_code = t
  or_code none error_code = classify_code (casefold error_code)

  -- the branches for the value under `failure_type`
  unfoldable pub classify_named :
      Option (Value F) → (error_code : String) → Fields F → Result CountError ProviderFailureType
  unfolding classify_fallback failure_named lookup classify_code
  classify_named (some (text s)) error_code payload =
      if s == "fallback_failure"
      then classify_fallback (lookup "metrics" payload)
      else ok (or_code (failure_named s) error_code)
  classify_named _ error_code payload = ok (classify_code (casefold error_code))

  abbrev pub or_empty : Option (Fields F) → Fields F
  or_empty none = end
  or_empty (some m) = m

  unfoldable pub classify_provider_failure :
      (error_code : String) → (details : Option (Fields F)) → Result CountError ProviderFailureType
  unfolding classify_named lookup
  classify_provider_failure error_code details =
      let payload = or_empty details in
      classify_named (lookup "failure_type" payload) error_code payload
