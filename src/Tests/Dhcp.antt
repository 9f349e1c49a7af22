-- ===== src/Tests/Dhcp.antt =====
-- Hardware addresses, durations and reservations at concrete inputs.
use mantis_dns.Base.{true, false, none, some, [], ◌∷◌, length, ◌≡◌, refl}
use mantis_dns.Base.Text.{codes, is_empty, trim}
use mantis_dns.Dhcp.Mac.{hex_of, normalize_mac, normalize_mac-normal}
use mantis_dns.Dhcp.Reservations.{Reservation, Row}
use mantis_dns.Dhcp.Reservations.{Tab}
use mantis_dns.Dhcp.Page.{Lease, Page, v4, family_of, tab_of, reserve_from_lease, on_prefill}
use mantis_dns.Dhcp.Page.Laws.{reserved, form_submits, reserve_from_lease-submitted}
use mantis_dns.Dhcp.Scopes.{Scope, scope_values, payload}
use mantis_dns.Dhcp.Scopes.Laws.{IsStored as IsStoredScope, payload-scope_values}
use mantis_dns.Dhcp.Reservations.Laws.{IsStored}

typed_mac : normalize_mac (codes "00-1A-2b-3c-4d-5E") ≡ some (codes "00:1a:2b:3c:4d:5e")
unfolding normalize_mac
typed_mac = refl

normalize_mac-normal_example :
    (hex_of (codes "00:1a:2b:3c:4d:5e") ≡ hex_of (codes "00-1A-2b-3c-4d-5E"))
    × (length (codes "00:1a:2b:3c:4d:5e") ≡ 17)
    × (normalize_mac (codes "00:1a:2b:3c:4d:5e") ≡ some (codes "00:1a:2b:3c:4d:5e"))
normalize_mac-normal_example =
    normalize_mac-normal (codes "00-1A-2b-3c-4d-5E") (codes "00:1a:2b:3c:4d:5e") typed_mac

abbrev printer : Reservation
printer = record {
  mac_address = codes "00:1a:2b:3c:4d:5e";
  ip_address = codes "10.8.1.50";
  hostname = some (codes "printer");
  description = none;
  client_id = none;
  next_server = none;
  boot_filename = none;
  uefi_boot_filename = none;
  enabled = true;
}

abbrev row : Row
row = record { id = "r1"; reservation = printer }

printer-IsStored : IsStored printer
unfolding normalize_mac trim
printer-IsStored = record {
  mac = refl;
  ip = refl;
  hostname = refl;
  description = refl;
  client_id = refl;
  next_server = refl;
  boot_filename = refl;
  uefi_boot_filename = refl;
}

abbrev office : Scope
office = record {
  tenant_id = codes "t1";
  name = codes "office";
  description = none;
  subnet = codes "10.8.1.0/24";
  range_start = codes "10.8.1.10";
  range_end = codes "10.8.1.99";
  router_ip = some (codes "10.8.1.1");
  dns_servers = codes "10.8.1.2" ∷ codes "10.8.1.3" ∷ [];
  ntp_server = none;
  domain_name = none;
  interface = some (codes "eth0");
  lease_time_s = 86400;
  max_lease_time_s = 604800;
  ddns_enabled = false;
  ddns_zone_id = none;
  ddns_ttl_s = 300;
  pxe_next_server = none;
  pxe_boot_filename = none;
  pxe_uefi_boot_filename = none;
  enabled = true;
}

office-IsStored : IsStoredScope office
office-IsStored = record {
  dns_servers = refl;
  description = refl;
  router_ip = refl;
  ntp_server = refl;
  domain_name = refl;
  interface = refl;
  ddns_zone_id = refl;
  pxe_next_server = refl;
  pxe_boot_filename = refl;
  pxe_uefi_boot_filename = refl;
}

payload-scope_values_example : payload (scope_values (some office)) ≡ office
payload-scope_values_example = payload-scope_values office office-IsStored

abbrev phone : Lease
phone = record {
  ip_address = codes "10.8.1.77";
  mac_address = codes "00-1A-2b-3c-4d-5E";
  hostname = none;
  scope_id = "s1";
}

abbrev leases_page : Page
leases_page = record {
  params = ("tab", codes "leases") ∷ [];
  scope_id4 = none;
  scope_id6 = none;
  prefill4 = none;
  prefill6 = none;
}

abbrev blank_tab : Tab
blank_tab = record { editing = none; modal_open = false; search = [] }

leases_page-v4 : family_of leases_page.params ≡ v4
unfolding family_of
leases_page-v4 = refl

phone-named : is_empty (trim phone.ip_address) ≡ false
unfolding trim
phone-named = refl

reserve_from_lease-submitted_example :
    let after = reserve_from_lease true phone leases_page in
    let shown = on_prefill after.prefill4 after.scope_id4 blank_tab in
    (family_of after.params ≡ v4)
    × (tab_of after.params ≡ codes "reservations")
    × (after.scope_id4 ≡ some phone.scope_id)
    × (shown.modal_open ≡ true)
    × (form_submits shown.editing ≡ some (reserved (codes "00:1a:2b:3c:4d:5e") phone))
reserve_from_lease-submitted_example =
    reserve_from_lease-submitted true phone (codes "00:1a:2b:3c:4d:5e") leases_page blank_tab
      leases_page-v4 refl typed_mac phone-named
