-- ===== src/Accounts.antt =====
-- The pages of users, tenants, groups, clients and settings (apps/ui/src/pages).
pub mod Users
pub mod Groups
pub mod Clients
pub mod Settings
pub mod Laws
