-- ===== src/ProviderExecutor.antt =====
-- apps/api/app/domain/provider_failure_classification.py (`Failures`),
-- apps/api/app/domain/provider_registry.py (`Registry`) and
-- apps/api/app/domain/provider_executor.py (`Execution`): the providers that can be called, the call
-- of the one that was selected, and what its failure is classified as.
pub mod Failures
pub mod Registry
pub mod Execution
mod Examples
