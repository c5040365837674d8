-- ===== src/ResearchState.antt =====
-- apps/api/app/domain/state.py and apps/api/app/agent/reducers/state_reducer.py: the state of a
-- research run, its invariants, and the patches that change it.
pub mod Data
pub mod Validate
pub mod Reducer
pub mod Merge
pub mod Laws
pub mod Valid
mod Examples
