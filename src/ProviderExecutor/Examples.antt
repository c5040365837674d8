-- ===== src/ProviderExecutor/Examples.antt =====
-- Two providers, of which the one that works is selected and called.
use deep_research_agent.Common.{
  ℕ, ◌≡◌, ◌≢◌, refl, true, false, none, some, List, [], ◌∷◌, String, string_eq, contains, unique,
  arith, ok,
}
use deep_research_agent.Common.Micros.{micros}
use deep_research_agent.Common.Dict.{get, put}
use deep_research_agent.Common.Values.{pos, Conversions}
use deep_research_agent.ProviderHealth.Data.{circuit_open, new_record}
use deep_research_agent.ProviderHealth.Record.{succeed, fail}
use deep_research_agent.ProviderHealth.Tracker.{
  Tracker, new_tracker, state_of, tracked, record_success, record_failure,
}
use deep_research_agent.ProviderHealth.Runs.{success, failure, run}
use deep_research_agent.ProviderRouter.Choice.{
  ProviderSelectionDecision, Router, new_router, select_for, is_blocked, rank, sort_ranked,
  insert_ranked,
}
use deep_research_agent.ProviderExecutor.Execution.{
  ProviderExecutionResult, ProviderExecutionStatus, several, address, row, Executor, ProviderCall,
  new_executor, or_no_options, conclude, execute, execute_selected, execute_on, call_provider,
  extract_urls, collect_urls, returned, result,
}
use deep_research_agent.ProviderExecutor.Execution.Laws.{IsSound, execute-IsSound}
use deep_research_agent.ProviderExecutor.Execution.Routed.{selected_is_called}

-- conversions that read no text and no float
abbrev plain : Conversions micros
plain = record {
  int_of_float = λ x. pos 0;
  int_of_text = λ s. none;
  float_of_int = λ n. 0;
  float_of_text = λ s. none;
}

abbrev same_text : String → String
same_text s = s

abbrev health : Tracker ℕ
health =
    run micros (new_tracker micros 15000000 3 3)
      (failure "quark" circuit_open 0 (some 10) 10 ∷ success "bing" 300000 (some 20) 20 ∷ [])

abbrev pool : List String
pool = "quark" ∷ "bing" ∷ []

abbrev bing_name : String
bing_name = "bing"

-- a call that returns two rows with one address
abbrev two_rows : ProviderCall ℕ
two_rows query limit options = ok (several (address "u1" ∷ row none (some "u1") ∷ []))

abbrev calls : List (String × ProviderCall ℕ)
calls = ("quark", two_rows) ∷ ("bing", two_rows) ∷ []

abbrev the_router : Router ℕ
the_router = record { health = health; candidates = pool; max_switches = 1 }

abbrev the_executor : Executor ℕ
the_executor = record { calls = calls; candidates = pool }

abbrev choice : ProviderSelectionDecision
choice = select_for micros the_router false none [] 0

router_is_built : new_router micros health (some pool) none 1 ≡ ok the_router
unfolding new_router unique
router_is_built = refl

executor_is_built : new_executor calls pool ≡ ok the_executor
unfolding new_executor unique
executor_is_built = refl

every_provider_has_a_call : (q : String) → contains q pool ≡ true → get q calls ≢ none
unfolding get
every_provider_has_a_call q h = ground (arith, h)

bing_is_selected : choice.selected_provider ≡ some bing_name
unfolding select_for run new_tracker record_success record_failure tracked new_record succeed fail
    get put rank sort_ranked insert_ranked state_of unique
bing_is_selected = refl

abbrev outcome : ProviderExecutionResult ℕ
outcome =
    result micros choice 8 "bing" ProviderExecutionStatus.success ("u1" ∷ []) none
      (micros.mul (micros.sub 5 3) (micros.decimal 1000 0)) (some "provider_success")

bing_answers : execute micros plain same_text the_executor choice "prices" 8 none 8 3 5 ≡ ok outcome
unfolding select_for run new_tracker record_success record_failure tracked new_record succeed fail
    get put rank sort_ranked insert_ranked state_of unique execute execute_selected execute_on
    call_provider conclude returned extract_urls collect_urls
bing_answers = refl

execute-IsSound_example : IsSound choice outcome
execute-IsSound_example =
    execute-IsSound micros plain same_text choice the_executor "prices" 8 none 8 3 5 outcome
      bing_answers

selected_is_called_example :
    (contains bing_name [] ≡ false)
    × (is_blocked (state_of micros health bing_name) ≡ false)
    × ((call : ProviderCall ℕ) × (get bing_name calls ≡ some call)
        × (execute micros plain same_text the_executor
              (select_for micros the_router false none [] 0)
              "prices"
              8
              none
              8
              3
              5
            ≡ conclude micros plain same_text
                (select_for micros the_router false none [] 0)
                8
                bing_name
                (micros.mul (micros.sub 5 3) (micros.decimal 1000 0))
                (call "prices" 8 (or_no_options none))))
selected_is_called_example =
    selected_is_called micros plain same_text health pool none 1 the_router calls the_executor false
      none [] 0 bing_name "prices" 8 none 8 3 5 router_is_built executor_is_built
      every_provider_has_a_call bing_is_selected
