-- ===== src/Dhcp.antt =====
-- What the DHCP pages show and read: hardware addresses and durations.
pub mod Mac
pub mod Times
pub mod Page
pub mod Reservations
pub mod Scopes
pub mod Tabs
pub mod V6
