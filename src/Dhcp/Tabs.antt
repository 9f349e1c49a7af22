-- ===== src/Dhcp/Tabs.antt =====
-- apps/ui/src/pages/dhcp/ScopesTab.tsx and ReservationsTab.tsx: what these tabs send and tell, as
-- arguments of the handlers of Forms.CrudTab.
use mantis_dns.Base.{String, Option, none, some, map}
use mantis_dns.Base.Text.{Text, codes}
use mantis_dns.Base.Json.{Json, bool, num, str, arr, obj, keyed, end, of_list}
use mantis_dns.Base.Platform.{Platform}
use mantis_dns.Api.Mutations.{
  MutationHook, create_dhcp_scope, update_dhcp_scope, delete_dhcp_scope, create_dhcp_reservation,
  update_dhcp_reservation, delete_dhcp_reservation,
}
use mantis_dns.Forms.Optional.{text_json}
use mantis_dns.Forms.CrudTab.{Entity}
use mantis_dns.Dhcp.Scopes.{Scope}
use mantis_dns.Dhcp.Reservations.{Reservation, Initial, reservation_json}

pub record ScopeRow : Type 0 where
  pub id : String
  pub scope : Scope

unfoldable scope_json : Scope → Json
scope_json s = obj (
    keyed "tenant_id" (str s.tenant_id) (
      keyed "name" (str s.name) (
        keyed "description" (text_json s.description) (
          keyed "subnet" (str s.subnet) (
            keyed "range_start" (str s.range_start) (
              keyed "range_end" (str s.range_end) (
                keyed "router_ip" (text_json s.router_ip) (
                  keyed "dns_servers" (arr (of_list (map str s.dns_servers))) (
                    keyed "ntp_server" (text_json s.ntp_server) (
                      keyed "domain_name" (text_json s.domain_name) (
                        keyed "interface" (text_json s.interface) (
                          keyed "lease_time_s" (num s.lease_time_s) (
                            keyed "max_lease_time_s" (num s.max_lease_time_s) (
                              keyed "ddns_enabled" (bool s.ddns_enabled) (
                                keyed "ddns_zone_id" (text_json s.ddns_zone_id) (
                                  keyed "ddns_ttl_s" (num s.ddns_ttl_s) (
                                    keyed "pxe_next_server" (text_json s.pxe_next_server) (
                                      keyed "pxe_boot_filename" (text_json s.pxe_boot_filename) (
                                        keyed "pxe_uefi_boot_filename"
                                          (text_json s.pxe_uefi_boot_filename)
                                          (keyed "enabled" (bool s.enabled)
                                            (end)))))))))))))))))))))

-- `e.message`.
abbrev pub own_message : Platform → Text → Text
own_message p message = message

unfoldable pub scopes : Entity ScopeRow Scope
unfolding scope_json
scopes = record {
  create = λ v. create_dhcp_scope (scope_json v);
  update = λ s v. update_dhcp_scope (s.id, scope_json v);
  created_message = λ _. codes "Scope created";
  updated_message = λ _. codes "Scope updated";
  error_message = own_message;
  remove = λ s. delete_dhcp_scope s.id;
  removed_message = λ _. some (codes "Scope deleted");
}

-- A reservation that is edited has an id; one that comes from a lease has none and is created.
abbrev update_or_create : Option String → Option String → Json → MutationHook
update_or_create scope none body = create_dhcp_reservation scope body
update_or_create scope (some id) body = update_dhcp_reservation scope (id, body)

abbrev saved_message : Option String → Text
saved_message none = codes "Reservation created"
saved_message (some id) = codes "Reservation updated"

-- The rows of the table all have an id.
abbrev pub row_id : Option String → String
row_id none = ""
row_id (some id) = id

unfoldable pub reservations : Option String → Entity Initial Reservation
unfolding reservation_json
reservations scope = record {
  create = λ v. create_dhcp_reservation scope (reservation_json v);
  update = λ i v. update_or_create scope i.id (reservation_json v);
  created_message = λ _. codes "Reservation created";
  updated_message = λ i. saved_message i.id;
  error_message = own_message;
  remove = λ i. delete_dhcp_reservation scope (row_id i.id);
  removed_message = λ _. some (codes "Reservation deleted");
}
