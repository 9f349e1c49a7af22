-- ===== src/Dhcp/V6/Scopes.antt =====
-- apps/ui/src/pages/dhcp/dhcpv6/Scope6sTab.tsx.
use mantis_dns.Base.{ℕ, String, Bool, true, false, not, ◌&&◌, Option, none, some, List, [], map}
use mantis_dns.Base.Text.{Text, codes, is_empty, join, trim}
use mantis_dns.Base.Json.{Json, bool, num, str, arr, obj, keyed, end, of_list}
use mantis_dns.Api.Mutations.{create_dhcp_scope6, update_dhcp_scope6, delete_dhcp_scope6}
use mantis_dns.Forms.{NumberField, absent, number_json}
use mantis_dns.Forms.Optional.{or_blank, or_null, text_json}
use mantis_dns.Forms.CrudTab.{Entity}
use mantis_dns.Dhcp.Scopes.Servers.{split_servers}
use mantis_dns.Dhcp.Tabs.{own_message}

-- The fields of `DhcpScope6` that the form edits.
pub record Scope6 : Type 0 where
  pub tenant_id : Text
  pub name : Text
  pub description : Option Text
  pub subnet : Text
  pub pool_start : Text
  pub pool_end : Text
  pub pd_prefix : Option Text
  pub pd_prefix_len : NumberField
  pub dns_servers : List Text
  pub domain_name : Option Text
  pub interface : Option Text
  pub preferred_lifetime_s : ℕ
  pub valid_lifetime_s : ℕ
  pub ddns_enabled : Bool
  pub enabled : Bool

pub record Scope6Row : Type 0 where
  pub id : String
  pub scope : Scope6

-- The values of the form.
pub record Scope6Form : Type 0 where
  pub tenant_id : Text
  pub name : Text
  pub description : Text
  pub subnet : Text
  pub pool_start : Text
  pub pool_end : Text
  pub pd_prefix : Text
  pub pd_prefix_len : NumberField
  pub dns_servers : Text
  pub domain_name : Text
  pub interface : Text
  pub preferred_lifetime_s : ℕ
  pub valid_lifetime_s : ℕ
  pub ddns_enabled : Bool
  pub enabled : Bool

-- `initialValues`, for a new scope and for one that is edited.
unfoldable pub scope6_values : Option Scope6 → Scope6Form
unfolding join
scope6_values none = record {
  tenant_id = [];
  name = [];
  description = [];
  subnet = [];
  pool_start = [];
  pool_end = [];
  pd_prefix = [];
  pd_prefix_len = absent;
  dns_servers = [];
  domain_name = [];
  interface = [];
  preferred_lifetime_s = 3000;
  valid_lifetime_s = 4000;
  ddns_enabled = false;
  enabled = true;
}
scope6_values (some s) = record {
  tenant_id = s.tenant_id;
  name = s.name;
  description = or_blank s.description;
  subnet = s.subnet;
  pool_start = s.pool_start;
  pool_end = s.pool_end;
  pd_prefix = or_blank s.pd_prefix;
  pd_prefix_len = s.pd_prefix_len;
  dns_servers = join (codes ", ") s.dns_servers;
  domain_name = or_blank s.domain_name;
  interface = or_blank s.interface;
  preferred_lifetime_s = s.preferred_lifetime_s;
  valid_lifetime_s = s.valid_lifetime_s;
  ddns_enabled = s.ddns_enabled;
  enabled = s.enabled;
}

abbrev is_blank : Text → Bool
is_blank s = is_empty (trim s)

-- `validate` of the scope: no field has an error.
unfoldable scope6_valid : Bool → Scope6Form → Bool
scope6_valid is_new v =
    not (is_new && is_empty v.tenant_id)
    && not (is_blank v.name)
    && not (is_blank v.subnet)
    && not (is_blank v.pool_start)
    && not (is_blank v.pool_end)

-- The body that the form of the scope submits.
unfoldable pub scope6_body : Scope6Form → Scope6
unfolding split_servers
scope6_body v = record {
  tenant_id = v.tenant_id;
  name = v.name;
  description = or_null v.description;
  subnet = v.subnet;
  pool_start = v.pool_start;
  pool_end = v.pool_end;
  pd_prefix = or_null v.pd_prefix;
  pd_prefix_len = v.pd_prefix_len;
  dns_servers = split_servers v.dns_servers;
  domain_name = or_null v.domain_name;
  interface = or_null v.interface;
  preferred_lifetime_s = v.preferred_lifetime_s;
  valid_lifetime_s = v.valid_lifetime_s;
  ddns_enabled = v.ddns_enabled;
  enabled = v.enabled;
}

unfoldable scope6_json : Scope6 → Json
scope6_json s = obj (
    keyed "tenant_id" (str s.tenant_id) (
      keyed "name" (str s.name) (
        keyed "description" (text_json s.description) (
          keyed "subnet" (str s.subnet) (
            keyed "pool_start" (str s.pool_start) (
              keyed "pool_end" (str s.pool_end) (
                keyed "pd_prefix" (text_json s.pd_prefix) (
                  keyed "pd_prefix_len" (number_json s.pd_prefix_len) (
                    keyed "dns_servers" (arr (of_list (map str s.dns_servers))) (
                      keyed "domain_name" (text_json s.domain_name) (
                        keyed "interface" (text_json s.interface) (
                          keyed "preferred_lifetime_s" (num s.preferred_lifetime_s) (
                            keyed "valid_lifetime_s" (num s.valid_lifetime_s) (
                              keyed "ddns_enabled" (bool s.ddns_enabled)
                                (keyed "enabled" (bool s.enabled) (end))))))))))))))))

unfoldable pub scopes6 : Entity Scope6Row Scope6
unfolding scope6_json
scopes6 = record {
  create = λ v. create_dhcp_scope6 (scope6_json v);
  update = λ s v. update_dhcp_scope6 (s.id, scope6_json v);
  created_message = λ _. codes "Scope created";
  updated_message = λ _. codes "Scope updated";
  error_message = own_message;
  remove = λ s. delete_dhcp_scope6 s.id;
  removed_message = λ _. some (codes "Scope deleted");
}
