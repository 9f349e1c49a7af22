-- ===== src/Dhcp/Scopes/Laws.antt =====
-- What the form of a scope submits.
use mantis_dns.Base.{true, some, ◌≡◌, refl, all}
use mantis_dns.Forms.Optional.{is_stored, or_null-or_blank}
use mantis_dns.Dhcp.Scopes.{Scope, scope_values, payload}
use mantis_dns.Dhcp.Scopes.Servers.{is_server, split_servers-join}

-- A scope as the API stores it.
pub record IsStored (s : Scope) : Type 0 where
  pub dns_servers : all is_server s.dns_servers ≡ true
  pub description : is_stored s.description ≡ true
  pub router_ip : is_stored s.router_ip ≡ true
  pub ntp_server : is_stored s.ntp_server ≡ true
  pub domain_name : is_stored s.domain_name ≡ true
  pub interface : is_stored s.interface ≡ true
  pub ddns_zone_id : is_stored s.ddns_zone_id ≡ true
  pub pxe_next_server : is_stored s.pxe_next_server ≡ true
  pub pxe_boot_filename : is_stored s.pxe_boot_filename ≡ true
  pub pxe_uefi_boot_filename : is_stored s.pxe_uefi_boot_filename ≡ true

-- A scope as it is stored, with no optional text that is empty and DNS servers that are not empty
-- and hold no comma and no white space, is sent as it is when it is opened for editing and saved
-- without a change.
pub payload-scope_values : (s : Scope) → IsStored s → payload (scope_values (some s)) ≡ s
unfolding payload scope_values
payload-scope_values s i =
    rw
      (
        split_servers-join s.dns_servers i.dns_servers,
        or_null-or_blank s.description i.description,
        or_null-or_blank s.router_ip i.router_ip,
        or_null-or_blank s.ntp_server i.ntp_server,
        or_null-or_blank s.domain_name i.domain_name,
        or_null-or_blank s.interface i.interface,
        or_null-or_blank s.ddns_zone_id i.ddns_zone_id,
        or_null-or_blank s.pxe_next_server i.pxe_next_server,
        or_null-or_blank s.pxe_boot_filename i.pxe_boot_filename,
        or_null-or_blank s.pxe_uefi_boot_filename i.pxe_uefi_boot_filename,
      )
      refl
