-- ===== src/Lib.antt =====
-- A verification library for the decision logic of the research agent in apps/api/app.
--
-- A run of the agent keeps a state, the `ResearchState`, which only patches change. Searches go to
-- one of several providers, which a router chooses by their health; the health is tracked from the
-- outcomes of the attempts. Tokens, pages and calls are divided over the questions of the run, and
-- what a question may spend beyond its target depends on its risk and on its projected state. A gap
-- in the knowledge of a question is evaluated against the evidence; while it is not closed, feedback
-- explains it and is dispatched as a need and an action; a question may be recovered in an attempt.
--
-- - ResearchState: apps/api/app/domain/state.py (`Data` has the enumerations and models,
--   `Validate` the validators) and apps/api/app/agent/reducers/state_reducer.py (`Reducer`,
--   with `apply_patch`). A raised error is a value of `Result`; a dictionary that is keyed by ids
--   is an association list in the order of insertion, as in Python.
-- - ProviderHealth: apps/api/app/domain/provider_health.py. `Record` has the bodies of the methods
--   at the record of one provider, `Tracker` the methods. A method returns the new tracker beside
--   its result; what `datetime.now(UTC)` returns is an argument, and so a run is a list of calls.
-- - ProviderRouter: apps/api/app/domain/provider_router.py. `Choice` has the constructor and
--   `select_for`; the sort by tier and place is an insertion sort. The router reads the states of
--   the tracker. `ProviderHealth.Payload` is the stored form of the tracker.
-- - ProviderExecutor: apps/api/app/domain/provider_executor.py (`Execution`), with the registry of
--   provider_registry.py and the classification of provider_failure_classification.py. A provider's
--   call is an argument; an exception is a record of what the executor reads of it.
-- - Closure: apps/api/app/domain/gap_closure.py (`Data`, `Evaluation`), evidence_alignment.py
--   (`Alignment`), closure_evaluator.py (`Evaluator`), closure_feedback.py (`Feedback`),
--   closure_feedback_completeness.py (`Completeness`), closure_feedback_completeness_pass.py
--   (`Pass`), run_closure_feedback_finalizer.py (`Finalizer`), research_context.py (`Context`),
--   research_need.py (`Need`), research_action.py (`Action`) and closure_feedback_dispatcher.py
--   (`Dispatcher`); `Handoff` has an evaluation, its feedback and the dispatch one after another.
--   Ids of `uuid5` and their texts are those of the interface `Uuids`.
-- - Recovery: apps/api/app/domain/recovery_execution.py.
-- - QuestionState: `project_question_research_state` of
--   apps/api/app/domain/question_research_state.py.
-- - Budget: apps/api/app/domain/research_budget.py. `Allocation` is `allocate_research_call`,
--   `Questions` is `estimate_question_budgets`, `Risk` the classification of claims, gaps and
--   questions, `Borrow` is `decide_question_borrow`, which reads the risk state of a question and
--   its projected state, `Pools` is `build_resource_pool_snapshot` with the limits of the model
--   token pools, `Estimates` the reserve of the writer and the cost of a minimal call, and
--   `Schedule` the key that questions are scheduled by.
-- - Common: lists, dictionaries, results, texts, and interfaces. `Floats` has the operations of
--   Python's floats that the code uses with the facts that it relies on, and `Micros` fills it
--   with numbers of millionths; `Uuids` has the functions on ids; `Conversions` stands for what
--   `int` makes of floats and texts. Where a text is folded by a method of Python's `str`, the
--   function is an argument.
--
-- Integers are unbounded in Python, and are numbers here wherever the code keeps them from being
-- negative; where it clips a negative one, they are of the type ℤ. Every function ends by
-- structural recursion. The only fuel is that of the digits of a count in the text of an id: it is
-- the count, which is divided by ten at each digit.
--
-- Not modelled: the views `as_dict`, the checks of lengths and ranges that Pydantic makes of single
-- fields, the projection of gaps from untyped snapshots, the
-- scheduler, the graph of evidence, the planning of queries, and the orchestration of a run, which
-- reads and writes a database and calls language models, search providers and web pages.
pub mod Common
pub mod Closure
pub mod Recovery
pub mod ProviderExecutor
pub mod Budget
pub mod QuestionState
pub mod ResearchState
pub mod ProviderHealth
pub mod ProviderRouter
