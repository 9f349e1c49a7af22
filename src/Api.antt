-- ===== src/Api.antt =====
-- apps/ui/src/api: the HTTP client, the error messages and the data hooks.
pub mod Request
pub mod Hooks
pub mod Cache
pub mod Errors
pub mod Outcome
pub mod Client
pub mod Queries
pub mod Mutations
pub mod Coherence
