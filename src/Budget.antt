-- ===== src/Budget.antt =====
-- apps/api/app/domain/research_budget.py: how the tokens, pages and calls of a run are divided.
pub mod Allocation
pub mod Questions
pub mod Risk
pub mod Borrow
pub mod Pools
pub mod Estimates
pub mod Schedule
mod Examples
mod PoolExamples
