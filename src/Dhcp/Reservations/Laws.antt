-- ===== src/Dhcp/Reservations/Laws.antt =====
-- What the form of a reservation submits.
use mantis_dns.Base.{true, false, some, [], ◌∷◌, ◌≡◌, refl, arith, Option-cases, inl, inr}
use mantis_dns.Base.Text.{Text, is_empty, trim}
use mantis_dns.Dhcp.Mac.{normalize_mac, normalize_mac-normal}
use mantis_dns.Forms.Optional.{is_stored, or_null-or_blank}
use mantis_dns.Dhcp.Reservations.{
  Reservation, ReservationForm, initial_values, submitted, Row, initial_of,
}

pub normalize_mac-filled : (raw t : Text) → normalize_mac raw ≡ some t → is_empty t ≡ false
normalize_mac-filled raw [] h =
    let (a, b, c) = normalize_mac-normal raw [] h in absurd (omega arith)
normalize_mac-filled raw (c ∷ t) h = refl

-- What the form of a reservation submits has the typed hardware address in its normal form, and an
-- IP address that is not blank.
pub submitted-normal :
    (v : ReservationForm) (r : Reservation)
    → submitted v ≡ some r
    → (normalize_mac r.mac_address ≡ some r.mac_address)
      × (normalize_mac v.mac_address ≡ some r.mac_address)
      × (is_empty (trim r.ip_address) ≡ false)
unfolding submitted
submitted-normal v r h = elim (Option-cases (normalize_mac v.mac_address)) [
  | inl e ↦ ground arith
  | inr (mac, e) ↦ let normal = normalize_mac-normal v.mac_address mac e in ground arith
]

pub record IsStored (r : Reservation) : Type 0 where
  pub mac : normalize_mac r.mac_address ≡ some r.mac_address
  pub ip : is_empty (trim r.ip_address) ≡ false
  pub hostname : is_stored r.hostname ≡ true
  pub description : is_stored r.description ≡ true
  pub client_id : is_stored r.client_id ≡ true
  pub next_server : is_stored r.next_server ≡ true
  pub boot_filename : is_stored r.boot_filename ≡ true
  pub uefi_boot_filename : is_stored r.uefi_boot_filename ≡ true

-- A reservation as it is stored, with a hardware address in its normal form, an IP address that is
-- not blank and no optional text that is empty, is sent as it is when it is opened for editing and
-- saved without a change.
pub submitted-initial_values :
    (row : Row)
    → IsStored row.reservation
    → submitted (initial_values (initial_of row)) ≡ some row.reservation
unfolding submitted initial_values normalize_mac
submitted-initial_values row i =
    rw
      (
        i.mac,
        normalize_mac-filled row.reservation.mac_address row.reservation.mac_address i.mac,
        i.ip,
        or_null-or_blank row.reservation.hostname i.hostname,
        or_null-or_blank row.reservation.description i.description,
        or_null-or_blank row.reservation.client_id i.client_id,
        or_null-or_blank row.reservation.next_server i.next_server,
        or_null-or_blank row.reservation.boot_filename i.boot_filename,
        or_null-or_blank row.reservation.uefi_boot_filename i.uefi_boot_filename,
      )
      refl
