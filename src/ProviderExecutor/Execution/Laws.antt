-- ===== src/ProviderExecutor/Execution/Laws.antt =====
-- What an execution promises, alone and after the choice of apps/api/app/domain/provider_router.py.
use deep_research_agent.Common.{
  ℕ, ◌≡◌, ◌≢◌, ◌↔◌, refl, inl, inr, Bool-cases, false, ◌||◌, Option, none, some, Option-cases, List,
  [], ◌∷◌, ◌++◌, String, arith, string_eq, ◌==◌, contains, contains-append, Result, ok, raise,
}
use deep_research_agent.Common.Floats.{Floats}
use deep_research_agent.Common.Checks.{bind-ok}
use deep_research_agent.Common.Dict.{get}
use deep_research_agent.Common.Values.{Fields, Conversions}
use deep_research_agent.ProviderHealth.Data.{empty_response}
use deep_research_agent.ProviderRouter.Choice.{ProviderSelectionDecision}
use deep_research_agent.ProviderExecutor.Failures.{CountError}
use deep_research_agent.ProviderExecutor.Execution.{
  success, failed, empty, ProviderExecutionResult, ProviderException, RawItem, RawResult, nothing,
  single, several, url_of, collect_urls, extract_urls, Executor, or_no_options, classify_exception,
  result, refused, failure_result, returned, conclude, call_provider, execute_on, execute_selected,
  execute,
}

-- no text occurs twice, and none is empty
abbrev pub AreAddresses : List String → Type 0
AreAddresses [] = Unit
AreAddresses (u ∷ urls) = ((u == "") ≡ false) × (contains u urls ≡ false) × AreAddresses urls

addresses-append :
    (urls : List String) (u : String)
    → AreAddresses urls
    → (u == "") ≡ false
    → contains u urls ≡ false
    → AreAddresses (urls ++ u ∷ [])
addresses-append [] u h n f = (n, refl, tt)
addresses-append (v ∷ urls) u h n f = ground (
  arith,
  h,
  contains-append v urls (u ∷ []),
  string_eq.same_iff u v,
  string_eq.same_iff v u,
  addresses-append urls u,
)

collect_urls-AreAddresses :
    (items : List RawItem) (urls : List String)
    → AreAddresses urls
    → AreAddresses (collect_urls urls items)
unfolding collect_urls
collect_urls-AreAddresses [] urls h = h
collect_urls-AreAddresses (i ∷ items) urls h =
    elim (Bool-cases (url_of i == "" || contains (url_of i) urls)) [
      | inl e ↦ rw e (collect_urls-AreAddresses items urls h)
      | inr e ↦ rw e (
          collect_urls-AreAddresses items (urls ++ url_of i ∷ [])
            (addresses-append urls (url_of i) h (ground (arith, e)) (ground (arith, e))))
    ]

extract_urls-AreAddresses : (raw : RawResult) → AreAddresses (extract_urls raw)
unfolding extract_urls
extract_urls-AreAddresses nothing = tt
extract_urls-AreAddresses (single s) = ground arith
extract_urls-AreAddresses (several items) = collect_urls-AreAddresses items [] tt

-- what holds of the result of an execution for the decision `d`
pub record IsSound {F : Type 0} (d : ProviderSelectionDecision) (y : ProviderExecutionResult F)
    : Type 0 where
  pub addresses : AreAddresses y.results
  pub succeeds_with_results : (y.status ≡ success) ↔ (y.results ≢ [])
  pub success_has_no_error : y.status ≡ success → y.error_type ≡ none
  pub empty_is_classified : y.status ≡ empty → y.error_type ≡ some empty_response
  pub failure_is_classified : y.status ≡ failed → d.selected_provider ≢ none → y.error_type ≢ none
  pub feedback_kept : y.feedback_execution_id ≡ d.feedback_execution_id

module _ (fl : Floats) (d : ProviderSelectionDecision) where
  open fl use {F}

  returned-IsSound :
      (execution_id : ℕ) (provider : String) (latency : F) (urls : List String)
      → AreAddresses urls
      → IsSound d (returned fl d execution_id provider latency urls)
  unfolding returned
  returned-IsSound execution_id provider latency [] h = ground arith
  returned-IsSound execution_id provider latency (u ∷ urls) h = ground (arith, h)

module _ (fl : Floats) (conv : Conversions fl) (casefold : String → String)
    (d : ProviderSelectionDecision) where
  open fl use {F}

  refused-IsSound :
      (execution_id : ℕ) (provider reason : String) (y : ProviderExecutionResult F)
      → ◌≡◌ {A = Result CountError (ProviderExecutionResult F)}
          (ok (refused fl d execution_id provider reason))
          (ok y)
      → IsSound d y
  refused-IsSound execution_id provider reason y h =
      let same : y ≡ refused fl d execution_id provider reason = cc in rw same (ground arith)

  conclude-IsSound :
      (execution_id : ℕ) (provider : String) (latency : F)
      (m : Result (ProviderException F) RawResult) (y : ProviderExecutionResult F)
      → conclude fl conv casefold d execution_id provider latency m ≡ ok y
      → IsSound d y
  unfolding conclude
  conclude-IsSound execution_id provider latency (ok raw) y h =
      let same : y ≡ returned fl d execution_id provider latency (extract_urls raw) = cc in
      rw same (
        returned-IsSound fl d execution_id provider latency (extract_urls raw)
          (extract_urls-AreAddresses raw))
  conclude-IsSound execution_id provider latency (raise e) y h =
      let (t, classified, same) = bind-ok (classify_exception fl conv casefold e) _ y h in
      let is : y ≡ failure_result fl d execution_id provider latency t = cc in rw is (ground arith)

  execute_on-IsSound :
      (x : Executor F) (provider query : String) (limit : ℕ) (options : Option (Fields F))
      (execution_id : ℕ) (started ended : F) (y : ProviderExecutionResult F)
      → execute_on fl conv casefold x d provider query limit options execution_id started ended
        ≡ ok y
      → IsSound d y
  unfolding execute_on call_provider
  execute_on-IsSound x provider query limit options execution_id started ended y h =
      elim (Bool-cases (contains provider x.candidates)) [
        | inr e ↦ refused-IsSound execution_id provider "provider_not_registered" y (rw e at h)
        | inl e ↦ elim (Option-cases (get provider x.calls)) [
          | inl g ↦ refused-IsSound execution_id provider "provider_call_missing" y (rw (e, g) at h)
          | inr (call, g) ↦
              conclude-IsSound execution_id provider
                (fl.mul (fl.sub ended started) (fl.decimal 1000 0))
                (call query limit (or_no_options options)) y (rw (e, g) at h)
        ]
      ]

  execute_selected-IsSound :
      (x : Executor F) (o : Option String) (query : String) (limit : ℕ)
      (options : Option (Fields F)) (execution_id : ℕ) (started ended : F)
      (y : ProviderExecutionResult F)
      → d.selected_provider ≡ o
      → execute_selected fl conv casefold x d o query limit options execution_id started ended
        ≡ ok y
      → IsSound d y
  unfolding execute_selected
  execute_selected-IsSound x none query limit options execution_id started ended y e h =
      let is : y ≡ result fl d execution_id "" failed [] none (fl.decimal 0 0) (some d.reason) =
        cc in
      rw is (ground (arith, e))
  execute_selected-IsSound x (some p) query limit options execution_id started ended y e h =
      execute_on-IsSound x p query limit options execution_id started ended y h

  -- The results of an execution are distinct and not empty texts; there are some exactly when it
  -- succeeds; a success has no error, an empty answer is classified as such, and so is the failure for a selected provider; and
  -- the feedback execution is that of the decision.
  pub execute-IsSound :
      (x : Executor F) (query : String) (limit : ℕ) (options : Option (Fields F)) (execution_id : ℕ)
      (started ended : F) (y : ProviderExecutionResult F)
      → execute fl conv casefold x d query limit options execution_id started ended ≡ ok y
      → IsSound d y
  unfolding execute
  execute-IsSound x query limit options execution_id started ended y h =
      execute_selected-IsSound x d.selected_provider query limit options execution_id started ended
        y refl h
