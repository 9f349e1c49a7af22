-- ===== src/Dhcp/Reservations.antt =====
-- apps/ui/src/pages/dhcp/ReservationsTab.tsx: the form of a reservation, and the tab around it.
pub mod Laws
use mantis_dns.Base.{
  ℕ, String, Bool, true, false, not, ◌&&◌, ◌||◌, Option, none, some, List, [], ◌∷◌, ◌++◌, map,
  keep_if, if◌then◌else◌,
}
use mantis_dns.Base.Text.{Text, is_empty, or_text, includes, lower, trim}
use mantis_dns.Base.Json.{Json, null, bool, str, obj, keyed, end}
use mantis_dns.Api.Request.{Request}
use mantis_dns.Api.Hooks.Dhcp.{use_create_dhcp_reservation, use_update_dhcp_reservation}
use mantis_dns.Dhcp.Mac.{normalize_mac}
use mantis_dns.Forms.Optional.{or_blank, or_null, text_json}

-- What a reservation has beside its id, in a request body or an answer.
pub record Reservation : Type 0 where
  pub mac_address : Text
  pub ip_address : Text
  pub hostname : Option Text
  pub description : Option Text
  pub client_id : Option Text
  pub next_server : Option Text
  pub boot_filename : Option Text
  pub uefi_boot_filename : Option Text
  pub enabled : Bool

-- `initial`, whose fields may be absent or `null`.
pub record Initial : Type 0 where
  pub id : Option String
  pub mac_address : Option Text
  pub ip_address : Option Text
  pub hostname : Option Text
  pub description : Option Text
  pub client_id : Option Text
  pub next_server : Option Text
  pub boot_filename : Option Text
  pub uefi_boot_filename : Option Text
  pub enabled : Option Bool

-- The values of the form.
pub record ReservationForm : Type 0 where
  pub mac_address : Text
  pub ip_address : Text
  pub hostname : Text
  pub description : Text
  pub client_id : Text
  pub next_server : Text
  pub boot_filename : Text
  pub uefi_boot_filename : Text
  pub enabled : Bool

-- `v ?? true`.
abbrev or_true : Option Bool → Bool
or_true none = true
or_true (some b) = b

-- `initialValues`, where there is an `initial`.
unfoldable pub initial_values : Initial → ReservationForm
initial_values i = record {
  mac_address = or_blank i.mac_address;
  ip_address = or_blank i.ip_address;
  hostname = or_blank i.hostname;
  description = or_blank i.description;
  client_id = or_blank i.client_id;
  next_server = or_blank i.next_server;
  boot_filename = or_blank i.boot_filename;
  uefi_boot_filename = or_blank i.uefi_boot_filename;
  enabled = or_true i.enabled;
}

-- The submit handler, with the guards of `validate`; `normalizeMac(v) ?? v` has the address then.
unfoldable pub submitted : ReservationForm → Option Reservation
unfolding trim
submitted v = elim (normalize_mac v.mac_address) [
  | none ↦ none
  | some mac ↦
      if is_empty mac || is_empty (trim v.ip_address)
      then none
      else some (record {
        mac_address = mac;
        ip_address = v.ip_address;
        hostname = or_null v.hostname;
        description = or_null v.description;
        client_id = or_null v.client_id;
        next_server = or_null v.next_server;
        boot_filename = or_null v.boot_filename;
        uefi_boot_filename = or_null v.uefi_boot_filename;
        enabled = v.enabled;
      })
]

-- A row of the tab's table.
pub record Row : Type 0 where
  pub id : String
  pub reservation : Reservation

pub record Tab : Type 0 where
  pub editing : Option Initial
  pub modal_open : Bool
  pub search : Text

-- A lease that is to be reserved.
pub record ReservePrefill : Type 0 where
  pub ip_address : Text
  pub mac_address : Option Text

unfoldable open_create : Tab → Tab
open_create t = record t { editing = none; modal_open = true }

abbrev pub initial_of : Row → Initial
initial_of r = record {
  id = some r.id;
  mac_address = some r.reservation.mac_address;
  ip_address = some r.reservation.ip_address;
  hostname = r.reservation.hostname;
  description = r.reservation.description;
  client_id = r.reservation.client_id;
  next_server = r.reservation.next_server;
  boot_filename = r.reservation.boot_filename;
  uefi_boot_filename = r.reservation.uefi_boot_filename;
  enabled = some r.reservation.enabled;
}

unfoldable open_edit : Row → Tab → Tab
open_edit r t = record t { editing = some (initial_of r); modal_open = true }

-- The effect on `prefill` and `scopeId`, where both are set.
unfoldable pub open_prefilled : ReservePrefill → Tab → Tab
open_prefilled p t = record t {
  editing = some (record {
    id = none;
    mac_address = some (or_blank p.mac_address);
    ip_address = some p.ip_address;
    hostname = none;
    description = none;
    client_id = none;
    next_server = none;
    boot_filename = none;
    uefi_boot_filename = none;
    enabled = none;
  });
  modal_open = true;
}

unfoldable pub reservation_json : Reservation → Json
reservation_json r = obj (
    keyed "mac_address" (str r.mac_address) (
      keyed "ip_address" (str r.ip_address) (
        keyed "hostname" (text_json r.hostname) (
          keyed "description" (text_json r.description) (
            keyed "client_id" (text_json r.client_id) (
              keyed "next_server" (text_json r.next_server) (
                keyed "boot_filename" (text_json r.boot_filename) (
                  keyed "uefi_boot_filename" (text_json r.uefi_boot_filename)
                    (keyed "enabled" (bool r.enabled) end)))))))))

abbrev edited_id : Option Initial → Option String
edited_id none = none
edited_id (some i) = i.id

-- `save`: an update where `editing` has an id, else a creation.
unfoldable save_request : Option String → Tab → Reservation → Request
unfolding reservation_json use_create_dhcp_reservation use_update_dhcp_reservation
save_request scope t r = elim (edited_id t.editing) [
  | none ↦ (use_create_dhcp_reservation scope).mutation_fn (reservation_json r)
  | some id ↦ (use_update_dhcp_reservation scope).mutation_fn (id, reservation_json r)
]

-- What follows a save: the modal is closed, or stays open with the error shown.
unfoldable pub saved : Bool → Tab → Tab
saved succeeded t = if succeeded then record t { modal_open = false } else t

-- `filtered`, of texts in ASCII.
unfoldable pub filtered : Text → List Row → List Row
unfolding lower trim
filtered search rows =
    let q = lower (trim search) in
    if is_empty q
    then rows
    else keep_if
        (λ r.
          includes (lower r.reservation.mac_address) q
          || includes (lower r.reservation.ip_address) q
          || includes (lower (or_blank r.reservation.hostname)) q)
        rows
