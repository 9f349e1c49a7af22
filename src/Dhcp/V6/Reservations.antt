-- ===== src/Dhcp/V6/Reservations.antt =====
-- apps/ui/src/pages/dhcp/dhcpv6/Reservation6sTab.tsx.
use mantis_dns.Base.{String, Bool, true, ◌||◌, Option, none, some, List, keep_if, if◌then◌else◌}
use mantis_dns.Base.Text.{Text, codes, is_empty, includes, lower, trim}
use mantis_dns.Base.Json.{Json, bool, str, obj, keyed, end}
use mantis_dns.Api.Mutations.{
  MutationHook, create_dhcp_reservation6, update_dhcp_reservation6, delete_dhcp_reservation6,
}
use mantis_dns.Api.Request.{truthy}
use mantis_dns.Forms.Optional.{or_blank, or_null, text_json}
use mantis_dns.Forms.CrudTab.{Entity, Tab, open_edit}
use mantis_dns.Dhcp.Tabs.{own_message, row_id}

abbrev is_blank : Text → Bool
is_blank s = is_empty (trim s)

-- `DhcpReservation6`, less what the tab does not read, and a part of it, which the form starts from.
pub record Reservation6 : Type 0 where
  pub duid : Text
  pub ip_address : Text
  pub hostname : Option Text
  pub description : Option Text
  pub enabled : Bool

pub record Initial6 : Type 0 where
  pub id : Option String
  pub duid : Text
  pub ip_address : Text
  pub hostname : Option Text
  pub description : Option Text
  pub enabled : Option Bool

pub record Reservation6Form : Type 0 where
  pub duid : Text
  pub ip_address : Text
  pub hostname : Text
  pub description : Text
  pub enabled : Bool

abbrev or_true : Option Bool → Bool
or_true none = true
or_true (some b) = b

-- `initialValues` of the reservation, where there is an `initial`.
unfoldable pub reservation6_values : Initial6 → Reservation6Form
reservation6_values i = record {
  duid = i.duid;
  ip_address = i.ip_address;
  hostname = or_blank i.hostname;
  description = or_blank i.description;
  enabled = or_true i.enabled;
}

-- The submit handler of the reservation, with the guards of `validate`: only a text that is not blank
-- is required of the DUID and the address, which are sent as they are.
unfoldable pub reservation6_submitted : Reservation6Form → Option Reservation6
reservation6_submitted v =
    if is_blank v.duid || is_blank v.ip_address
    then none
    else some (record {
      duid = v.duid;
      ip_address = v.ip_address;
      hostname = or_null v.hostname;
      description = or_null v.description;
      enabled = v.enabled;
    })

unfoldable reservation6_json : Reservation6 → Json
reservation6_json r = obj (
    keyed "duid" (str r.duid) (
      keyed "ip_address" (str r.ip_address) (
        keyed "hostname" (text_json r.hostname)
          (keyed "description" (text_json r.description) (keyed "enabled" (bool r.enabled) end)))))

abbrev update_or_create : Option String → Option String → Json → MutationHook
update_or_create scope none body = create_dhcp_reservation6 scope body
update_or_create scope (some id) body = update_dhcp_reservation6 scope (id, body)

unfoldable pub reservations6 : Option String → Entity Initial6 Reservation6
unfolding reservation6_json
reservations6 scope = record {
  create = λ v. create_dhcp_reservation6 scope (reservation6_json v);
  update = λ i v. update_or_create scope i.id (reservation6_json v);
  created_message = λ _. codes "Reservation saved";
  updated_message = λ _. codes "Reservation saved";
  error_message = own_message;
  remove = λ i. delete_dhcp_reservation6 scope (row_id i.id);
  removed_message = λ _. some (codes "Reservation deleted");
}

-- A lease that is to be reserved.
pub record Prefill6 : Type 0 where
  pub ip_address : Text
  pub duid : Text

abbrev pub prefilled6 : Prefill6 → Initial6
prefilled6 p = record {
  id = none;
  duid = p.duid;
  ip_address = p.ip_address;
  hostname = none;
  description = none;
  enabled = none;
}

-- The effect on `prefill` and `scopeId`.
abbrev pub on_prefill6 : Option Prefill6 → Option String → Tab Initial6 → Tab Initial6
on_prefill6 none scope_id tab = tab
on_prefill6 (some p) scope_id tab = if truthy scope_id then open_edit (prefilled6 p) tab else tab

-- `filtered` of the reservations.
unfoldable pub filtered6 : Text → List Reservation6 → List Reservation6
unfolding lower trim
filtered6 search rows =
    let q = lower (trim search) in
    if is_empty q
    then rows
    else keep_if
        (λ r.
          includes (lower r.duid) q
          || includes (lower r.ip_address) q
          || includes (lower (or_blank r.hostname)) q)
        rows
