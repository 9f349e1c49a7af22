-- ===== src/Dhcp/V6.antt =====
-- apps/ui/src/pages/dhcp/dhcpv6: the forms and the tabs of the DHCPv6 scopes and reservations.
pub mod Scopes
pub mod Reservations
pub mod Laws
