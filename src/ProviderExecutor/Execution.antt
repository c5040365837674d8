-- ===== src/ProviderExecutor/Execution.antt =====
-- apps/api/app/domain/provider_executor.py. A provider's call is a function from the query, the
-- limit and the options to what it returns or raises; `execution_id` is what `uuid4()` returns, and
-- `started` and `ended` are what `time.monotonic()` shows before and after the call.
pub mod Laws
pub mod Routed
use deep_research_agent.Common.{
  ℕ, Bool, true, false, not, ◌&&◌, ◌||◌, Option, none, some, List, [], ◌∷◌, ◌++◌, String, string_eq,
  ◌==◌, contains, unique, if◌then◌else◌, Result, ok, raise, ◌>>=◌,
}
use Prim.Native.String.{◌++◌ as ◌<>◌}
use deep_research_agent.Common.Floats.{Floats}
use deep_research_agent.Common.Dict.{get}
use deep_research_agent.Common.Values.{Fields, end, Conversions}
use deep_research_agent.ProviderHealth.Data.{ProviderFailureType, empty_response}
use deep_research_agent.ProviderRouter.Choice.{ProviderSelectionDecision}
use deep_research_agent.ProviderExecutor.Failures.{
  CountError, failure_value, classify_provider_failure,
}

pub data ProviderExecutionStatus : Type 0 where
  success failed empty : ProviderExecutionStatus

pub record ProviderExecutionResult (F : Type 0) : Type 0 where
  pub provider_name : String
  pub status : ProviderExecutionStatus
  pub results : List String
  pub error_type : Option ProviderFailureType
  pub latency_ms : F
  pub execution_id : ℕ
  pub feedback_execution_id : Option ℕ
  pub reason : Option String

-- An element of what a call returns: a text, or a row with what its attribute `url` is and, if the
-- row is a mapping, its entry under "url", as texts.
pub data RawItem : Type 0 where
  address : String → RawItem
  row : (attribute entry : Option String) → RawItem

-- What a call returns: nothing or a value that cannot be iterated, one text, or the elements of an
-- iterable.
pub data RawResult : Type 0 where
  nothing : RawResult
  single : String → RawResult
  several : List RawItem → RawResult

-- what the executor reads of an exception: `str(exc.code or "")`, the name of its class, and its
-- `details` if they are a mapping
pub record ProviderException (F : Type 0) : Type 0 where
  pub code : String
  pub class_name : String
  pub details : Option (Fields F)

abbrev pub url_or_empty : Option String → String
url_or_empty none = ""
url_or_empty (some u) = u

abbrev pub or_entry : Option String → Option String → Option String
or_entry none entry = entry
or_entry (some u) entry = some u

abbrev pub url_of : RawItem → String
url_of (address s) = s
url_of (row attribute entry) = url_or_empty (or_entry attribute entry)

-- the loop of `_extract_urls`; `urls` are those found so far, which `seen` holds too
unfoldable pub collect_urls : List String → List RawItem → List String
collect_urls urls [] = urls
collect_urls urls (i ∷ items) =
    let url = url_of i in
    collect_urls (if url == "" || contains url urls then urls else urls ++ url ∷ []) items

-- `_extract_urls`
unfoldable pub extract_urls : RawResult → List String
unfolding collect_urls
extract_urls nothing = []
extract_urls (single s) = if s == "" then [] else s ∷ []
extract_urls (several items) = collect_urls [] items

abbrev pub ProviderCall : Type 0 → Type 0
ProviderCall F = String → ℕ → Fields F → Result (ProviderException F) RawResult

pub record Executor (F : Type 0) : Type 0 where
  pub calls : List (String × ProviderCall F)
  pub candidates : List String

pub data ExecutorError : Type 0 where
  no_candidate : ExecutorError

-- `ProviderExecutor.__init__`
unfoldable pub new_executor :
    {F : Type 0} → List (String × ProviderCall F) → List String → Result ExecutorError (Executor F)
new_executor calls [] = raise no_candidate
new_executor calls (c ∷ cs) = ok (record { calls = calls; candidates = unique (c ∷ cs) })

abbrev pub or_no_options : {F : Type 0} → Option (Fields F) → Fields F
or_no_options none = end
or_no_options (some m) = m

module _ (fl : Floats) (d : ProviderSelectionDecision) (execution_id : ℕ) where
  open fl use {F, decimal}

  abbrev pub result :
      String
      → ProviderExecutionStatus
      → List String
      → Option ProviderFailureType
      → F
      → Option String
      → ProviderExecutionResult F
  result provider status urls error_type latency reason = record {
    provider_name = provider;
    status = status;
    results = urls;
    error_type = error_type;
    latency_ms = latency;
    execution_id = execution_id;
    feedback_execution_id = d.feedback_execution_id;
    reason = reason;
  }

  -- a failure before the call
  abbrev pub refused : String → String → ProviderExecutionResult F
  refused provider reason =
      result provider failed [] (some ProviderFailureType.unknown) (decimal 0 0) (some reason)

  -- the result for a call that has failed
  abbrev pub failure_result : String → F → ProviderFailureType → ProviderExecutionResult F
  failure_result provider latency failure_type =
      result provider failed [] (some failure_type) latency
        (some ("provider_failure:" <> failure_value failure_type))

  -- the result for the addresses that a call has returned
  unfoldable pub returned : String → F → List String → ProviderExecutionResult F
  returned provider latency [] =
      result provider empty [] (some empty_response) latency (some "empty_result")
  returned provider latency (u ∷ urls) =
      result provider success (u ∷ urls) none latency (some "provider_success")

module _ (fl : Floats) (conv : Conversions fl) (casefold : String → String) where
  open fl use {F, sub, mul, decimal}

  -- `_classify_exception`
  unfoldable pub classify_exception : ProviderException F → Result CountError ProviderFailureType
  unfolding classify_provider_failure
  classify_exception e =
      classify_provider_failure fl conv casefold (if e.code == "" then e.class_name else e.code)
        e.details

  -- the result for what a call has returned or raised
  unfoldable pub conclude :
      ProviderSelectionDecision
      → ℕ
      → String
      → F
      → Result (ProviderException F) RawResult
      → Result CountError (ProviderExecutionResult F)
  unfolding classify_exception extract_urls returned
  conclude d execution_id provider latency (ok raw) =
      ok (returned fl d execution_id provider latency (extract_urls raw))
  conclude d execution_id provider latency (raise e) = do
    failure_type ← classify_exception e
    ok (failure_result fl d execution_id provider latency failure_type)

  unfoldable pub call_provider :
      Option (ProviderCall F)
      → ProviderSelectionDecision
      → String
      → (query : String) → (limit : ℕ) → (options : Option (Fields F)) → (execution_id : ℕ)
      → (started ended : F) → Result CountError (ProviderExecutionResult F)
  unfolding conclude
  call_provider none d provider query limit options execution_id started ended =
      ok (refused fl d execution_id provider "provider_call_missing")
  call_provider (some call) d provider query limit options execution_id started ended =
      conclude d execution_id provider (mul (sub ended started) (decimal 1000 0))
        (call query limit (or_no_options options))

  -- the branches for a provider that was selected
  unfoldable pub execute_on :
      Executor F
      → ProviderSelectionDecision
      → String
      → (query : String) → (limit : ℕ) → (options : Option (Fields F)) → (execution_id : ℕ)
      → (started ended : F) → Result CountError (ProviderExecutionResult F)
  unfolding call_provider get
  execute_on x d provider query limit options execution_id started ended =
      if not (contains provider x.candidates)
      then ok (refused fl d execution_id provider "provider_not_registered")
      else call_provider (get provider x.calls) d provider query limit options execution_id started
          ended

  unfoldable pub execute_selected :
      Executor F
      → ProviderSelectionDecision
      → Option String
      → (query : String) → (limit : ℕ) → (options : Option (Fields F)) → (execution_id : ℕ)
      → (started ended : F) → Result CountError (ProviderExecutionResult F)
  unfolding execute_on
  execute_selected x d none query limit options execution_id started ended =
      ok (result fl d execution_id "" failed [] none (decimal 0 0) (some d.reason))
  execute_selected x d (some provider) query limit options execution_id started ended =
      execute_on x d provider query limit options execution_id started ended

  -- `ProviderExecutor.execute`
  unfoldable pub execute :
      Executor F
      → ProviderSelectionDecision
      → (query : String) → (limit : ℕ) → (options : Option (Fields F)) → (execution_id : ℕ)
      → (started ended : F) → Result CountError (ProviderExecutionResult F)
  unfolding execute_selected
  execute x d query limit options execution_id started ended =
      execute_selected x d d.selected_provider query limit options execution_id started ended
