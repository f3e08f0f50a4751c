-- ===== src/Hooks.antt =====
-- web/src/lib/api/hooks.ts: the hooks over the endpoint functions and the query cache.
pub mod Queries
pub mod Query
pub mod Keys
pub mod Cache
pub mod Mutations
pub mod Mutation
pub mod Views
pub mod Hits
pub mod Changed
pub mod Refresh
