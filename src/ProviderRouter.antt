-- ===== src/ProviderRouter.antt =====
-- apps/api/app/domain/provider_router.py: the choice of a provider for one request. The
-- definitions are in `Choice`.
pub mod Choice
pub mod Ranking
pub mod Laws
pub mod Relapse
mod Examples
