-- ===== src/Closure.antt =====
-- How a gap is closed, in apps/api/app/domain: gap_closure.py (`Data`, `Evaluation`),
-- evidence_alignment.py (`Alignment`), closure_evaluation_context.py and closure_evaluator.py
-- (`Evaluator`); and what follows for a gap that is not: closure_feedback.py (`Feedback`),
-- closure_feedback_completeness.py (`Completeness`), closure_feedback_completeness_pass.py
-- (`Pass`), research_context.py (`Context`), research_need.py (`Need`), research_action.py
-- (`Action`), closure_feedback_dispatcher.py (`Dispatcher`). The clock is an argument and shows one
-- time throughout a call.
pub mod Data
pub mod Evaluation
pub mod Alignment
pub mod Evaluator
pub mod Context
pub mod Feedback
pub mod Completeness
pub mod Pass
pub mod Need
pub mod Action
pub mod Dispatcher
pub mod Handoff
pub mod Finalizer
mod Examples
