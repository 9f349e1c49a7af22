-- ===== src/Api/Hooks.antt =====
-- apps/ui/src/api/hooks.ts, a module for each part of the control plane.
pub mod Accounts
pub mod Policy
pub mod Upstream
pub mod Dhcp
pub mod Dhcp6
pub mod Zones
pub mod Monitoring
