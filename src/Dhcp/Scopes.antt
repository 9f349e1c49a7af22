-- ===== src/Dhcp/Scopes.antt =====
-- apps/ui/src/pages/dhcp/ScopesTab.tsx: the form of a scope, and the tab's state and saves.
pub mod Servers
pub mod Laws
use mantis_dns.Base.{
  ℕ, String, Bool, true, false, not, ◌&&◌, ◌||◌, Option, none, some, List, [], ◌∷◌, ◌++◌, map,
  keep_if, if◌then◌else◌, ◌==◌,
}
use mantis_dns.Base.Text.{Text, codes, is_digit, is_empty, join, trim}
use mantis_dns.Base.Json.{Json}
use mantis_dns.Api.Request.{Request}
use mantis_dns.Api.Hooks.Dhcp.{use_create_dhcp_scope, use_update_dhcp_scope}
use mantis_dns.Forms.Optional.{or_blank, or_null}
use Servers.{split_servers}

-- The fields of `DhcpScope` that the form edits.
pub record Scope : Type 0 where
  pub tenant_id : Text
  pub name : Text
  pub description : Option Text
  pub subnet : Text
  pub range_start : Text
  pub range_end : Text
  pub router_ip : Option Text
  pub dns_servers : List Text
  pub ntp_server : Option Text
  pub domain_name : Option Text
  pub interface : Option Text
  pub lease_time_s : ℕ
  pub max_lease_time_s : ℕ
  pub ddns_enabled : Bool
  pub ddns_zone_id : Option Text
  pub ddns_ttl_s : ℕ
  pub pxe_next_server : Option Text
  pub pxe_boot_filename : Option Text
  pub pxe_uefi_boot_filename : Option Text
  pub enabled : Bool

-- The values of the form. The inputs of numbers hold numbers.
pub record ScopeForm : Type 0 where
  pub tenant_id : Text
  pub name : Text
  pub description : Text
  pub subnet : Text
  pub range_start : Text
  pub range_end : Text
  pub router_ip : Text
  pub dns_servers : Text
  pub ntp_server : Text
  pub domain_name : Text
  pub interface : Text
  pub lease_time_s : ℕ
  pub max_lease_time_s : ℕ
  pub ddns_enabled : Bool
  pub ddns_zone_id : Text
  pub ddns_ttl_s : ℕ
  pub pxe_next_server : Text
  pub pxe_boot_filename : Text
  pub pxe_uefi_boot_filename : Text
  pub enabled : Bool

-- `initialValues` for a scope that is edited, and for a new one.
unfoldable pub scope_values : Option Scope → ScopeForm
unfolding join
scope_values none = record {
  tenant_id = [];
  name = [];
  description = [];
  subnet = [];
  range_start = [];
  range_end = [];
  router_ip = [];
  dns_servers = [];
  ntp_server = [];
  domain_name = [];
  interface = [];
  lease_time_s = 86400;
  max_lease_time_s = 604800;
  ddns_enabled = false;
  ddns_zone_id = [];
  ddns_ttl_s = 300;
  pxe_next_server = [];
  pxe_boot_filename = [];
  pxe_uefi_boot_filename = [];
  enabled = true;
}
scope_values (some s) = record {
  tenant_id = s.tenant_id;
  name = s.name;
  description = or_blank s.description;
  subnet = s.subnet;
  range_start = s.range_start;
  range_end = s.range_end;
  router_ip = or_blank s.router_ip;
  dns_servers = join (codes ", ") s.dns_servers;
  ntp_server = or_blank s.ntp_server;
  domain_name = or_blank s.domain_name;
  interface = or_blank s.interface;
  lease_time_s = s.lease_time_s;
  max_lease_time_s = s.max_lease_time_s;
  ddns_enabled = s.ddns_enabled;
  ddns_zone_id = or_blank s.ddns_zone_id;
  ddns_ttl_s = s.ddns_ttl_s;
  pxe_next_server = or_blank s.pxe_next_server;
  pxe_boot_filename = or_blank s.pxe_boot_filename;
  pxe_uefi_boot_filename = or_blank s.pxe_uefi_boot_filename;
  enabled = s.enabled;
}

-- `\d*` and what follows.
abbrev skip_digits : Text → Text
skip_digits [] = []
skip_digits (c ∷ s) = let rest = skip_digits s in if is_digit c then rest else c ∷ s

-- `\d+` and what follows.
abbrev digits_then : Text → Option Text
digits_then [] = none
digits_then (c ∷ s) = if is_digit c then some (skip_digits s) else none

-- `\d+` and a code unit.
abbrev digits_and : ℕ → Text → Option Text
digits_and d s = elim (digits_then s) [
  | none ↦ none
  | some [] ↦ none
  | some (c ∷ rest) ↦ if c == d then some rest else none
]

abbrev and_then : Option Text → (Text → Option Text) → Option Text
and_then none f = none
and_then (some s) f = f s

abbrev ends : Option Text → Bool
ends (some []) = true
ends _ = false

-- `/^\d+\.\d+\.\d+\.\d+\/\d+$/`.
unfoldable is_cidr : Text → Bool
is_cidr s = ends (
    and_then
      (and_then (and_then (and_then (digits_and b'.' s) (digits_and b'.')) (digits_and b'.'))
        (digits_and b'/'))
      digits_then)

abbrev is_blank : Text → Bool
is_blank s = is_empty (trim s)

-- `validate`: no field has an error. Only a new scope needs its tenant here.
unfoldable scope_valid : Bool → ScopeForm → Bool
unfolding is_cidr
scope_valid is_new v =
    not (is_new && is_empty v.tenant_id)
    && not (is_blank v.name)
    && not (is_blank v.subnet)
    && is_cidr (trim v.subnet)
    && not (is_blank v.range_start)
    && not (is_blank v.range_end)

-- The submit handler's payload: the form's values, the tenant's id among them also for an edited scope.
unfoldable pub payload : ScopeForm → Scope
unfolding split_servers
payload v = record {
  tenant_id = v.tenant_id;
  name = v.name;
  description = or_null v.description;
  subnet = v.subnet;
  range_start = v.range_start;
  range_end = v.range_end;
  router_ip = or_null v.router_ip;
  dns_servers = split_servers v.dns_servers;
  ntp_server = or_null v.ntp_server;
  domain_name = or_null v.domain_name;
  interface = or_null v.interface;
  lease_time_s = v.lease_time_s;
  max_lease_time_s = v.max_lease_time_s;
  ddns_enabled = v.ddns_enabled;
  ddns_zone_id = or_null v.ddns_zone_id;
  ddns_ttl_s = v.ddns_ttl_s;
  pxe_next_server = or_null v.pxe_next_server;
  pxe_boot_filename = or_null v.pxe_boot_filename;
  pxe_uefi_boot_filename = or_null v.pxe_uefi_boot_filename;
  enabled = v.enabled;
}

-- `save`, over the id of the scope that is edited and the payload as JSON.
unfoldable save_scope : Option String → Json → Request
unfolding use_create_dhcp_scope use_update_dhcp_scope
save_scope none body = use_create_dhcp_scope.mutation_fn body
save_scope (some id) body = use_update_dhcp_scope.mutation_fn (id, body)
