-- ===== src/ProviderExecutor/Execution/Routed.antt =====
-- The execution of what the router of apps/api/app/domain/provider_router.py selects.
use deep_research_agent.Common.{
  ℕ, ◌≡◌, ◌≢◌, refl, Bool, true, false, Option, none, some, Option-cases, List, [], ◌∷◌, String,
  inl, inr, string_eq, contains, unique, contains-unique, ok,
}
use deep_research_agent.Common.Floats.{Floats}
use deep_research_agent.Common.Dict.{get}
use deep_research_agent.Common.Values.{Fields, Conversions}
use deep_research_agent.ProviderHealth.Tracker.{Tracker, state_of}
use deep_research_agent.ProviderRouter.Choice.{
  ProviderSelectionDecision, Router, new_router, select_for, is_blocked,
}
use deep_research_agent.ProviderRouter.Laws.{selection_admissible}
use deep_research_agent.ProviderExecutor.Execution.{
  Executor, ProviderCall, new_executor, or_no_options, conclude, call_provider, execute_on,
  execute_selected, execute,
}

router_built :
    (fl : Floats) (health : Tracker fl.F) (candidates : List String)
    (registry : Option (List String)) (switches : ℕ) (r : Router fl.F)
    → new_router fl health (some candidates) registry switches ≡ ok r
    → (r.health ≡ health) × (r.candidates ≡ unique candidates)
unfolding new_router
router_built fl health [] registry switches r h = absurd (cc h)
router_built fl health (c ∷ cs) registry switches r h = (cc, cc)

executor_built :
    {F : Type 0} (calls : List (String × ProviderCall F)) (candidates : List String)
    (x : Executor F)
    → new_executor calls candidates ≡ ok x
    → (x.calls ≡ calls) × (x.candidates ≡ unique candidates)
unfolding new_executor
executor_built calls [] x h = absurd (cc h)
executor_built calls (c ∷ cs) x h = (cc, cc)

module _ (fl : Floats) (conv : Conversions fl) (casefold : String → String) where
  open fl use {F}

  call_made :
      (x : Executor F) (d : ProviderSelectionDecision) (p query : String) (limit : ℕ)
      (options : Option (Fields F)) (execution_id : ℕ) (started ended : F) (call : ProviderCall F)
      → d.selected_provider ≡ some p
      → contains p x.candidates ≡ true
      → get p x.calls ≡ some call
      → execute fl conv casefold x d query limit options execution_id started ended
        ≡ conclude fl conv casefold d execution_id p
            (fl.mul (fl.sub ended started) (fl.decimal 1000 0))
            (call query limit (or_no_options options))
  unfolding execute execute_selected execute_on call_provider
  call_made x d p query limit options execution_id started ended call s m g = rw (s, m, g) refl

  -- When the router and the executor are built on the same candidates, each of which has a call, a
  -- selected provider is neither excluded nor blocked, and the execution makes its call and concludes from it.
  pub selected_is_called :
      (health : Tracker F) (candidates : List String) (registry : Option (List String))
      (switches : ℕ) (r : Router F) (calls : List (String × ProviderCall F)) (x : Executor F)
      (is_feedback : Bool) (id : Option ℕ) (excluded : List String) (used : ℕ) (p query : String)
      (limit : ℕ) (options : Option (Fields F)) (execution_id : ℕ) (started ended : F)
      → new_router fl health (some candidates) registry switches ≡ ok r
      → new_executor calls candidates ≡ ok x
      → ((q : String) → contains q candidates ≡ true → get q calls ≢ none)
      → (select_for fl r is_feedback id excluded used).selected_provider ≡ some p
      → (contains p excluded ≡ false)
        × (is_blocked (state_of fl health p) ≡ false)
        × ((call : ProviderCall F) × (get p calls ≡ some call)
            × (execute fl conv casefold x
                  (select_for fl r is_feedback id excluded used)
                  query
                  limit
                  options
                  execution_id
                  started
                  ended
                ≡ conclude fl conv casefold
                    (select_for fl r is_feedback id excluded used)
                    execution_id
                    p
                    (fl.mul (fl.sub ended started) (fl.decimal 1000 0))
                    (call query limit (or_no_options options))))
  selected_is_called health candidates registry switches r calls x is_feedback id excluded used p
        query limit options execution_id started ended routed built covered selected =
      let (health_is, pool_is) = router_built fl health candidates registry switches r routed in
      let (calls_are, candidates_are) = executor_built calls candidates x built in
      let (pooled, free, usable, state, budget) =
        selection_admissible fl r is_feedback id excluded used p selected in
      let in_unique : contains p (unique candidates) ≡ true = rw pool_is at pooled in
      let listed : contains p candidates ≡ true = rw (contains-unique p candidates) at in_unique in
      elim (Option-cases (get p calls)) [
        | inl e ↦ absurd (covered p listed e)
        | inr (call, e) ↦ (
          free,
          rw health_is at usable,
          (
            call,
            e,
            call_made x (select_for fl r is_feedback id excluded used) p query limit options
                execution_id started ended call selected (rw candidates_are in_unique)
                (rw calls_are e),
          ),
        )
      ]
