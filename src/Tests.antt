-- ===== src/Tests.antt =====
-- The theorems at concrete inputs.
mod Fixtures
mod Client
mod Failures
mod Session
mod Navigation
mod Dashboard
mod Logs
mod Policy
mod Pages
mod Dhcp
mod Feeds
mod Zones
mod BlockPage
mod Upstream
mod Accounts
