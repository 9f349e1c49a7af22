-- ===== src/Upstream.antt =====
-- apps/ui/src/pages/upstream: the forms of the resolvers, the pools and the routes, whose tabs are those
-- of Forms.CrudTab, and the policy of a tenant.
pub mod Resolvers
pub mod Pools
pub mod Routes
pub mod TenantPolicy
pub mod Laws
