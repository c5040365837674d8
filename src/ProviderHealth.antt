-- ===== src/ProviderHealth.antt =====
-- apps/api/app/domain/provider_health.py: the health of each search provider, tracked from the
-- outcomes of the attempts. The data types and the record of one provider are in `Data`, the
-- operations on one record in `Record`, the tracker over all providers in `Tracker`.
pub mod Data
pub mod Record
pub mod Tracker
pub mod Runs
pub mod Transitions
pub mod Cooldown
pub mod Reports
pub mod Invariant
pub mod Payload
mod Examples
