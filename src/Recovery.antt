-- ===== src/Recovery.antt =====
-- apps/api/app/domain/recovery_execution.py: the attempt to recover a question (`Execution`), its
-- measured outcome (`Outcome`) and the context stored for it (`Context`).
pub mod Execution
pub mod Outcome
pub mod Context
mod Examples
