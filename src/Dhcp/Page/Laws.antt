-- ===== src/Dhcp/Page/Laws.antt =====
-- A lease on its way to a reservation.
use mantis_dns.Base.{Bool, true, false, Option, none, some, ◌≡◌, refl, if◌then◌else◌, ◌∙◌}
use mantis_dns.Base.Text.{Text, codes, is_empty, trim}
use mantis_dns.Navigation.UrlFilters.{Params}
use mantis_dns.Navigation.UrlFilters.Laws.{get-set}
use mantis_dns.Api.Request.{truthy}
use mantis_dns.Dhcp.Mac.{normalize_mac}
use mantis_dns.Dhcp.Reservations.{
  Reservation, Tab, Initial, initial_values, submitted, open_prefilled,
}
use mantis_dns.Dhcp.Reservations.Laws.{normalize_mac-filled}
use mantis_dns.Forms.CrudTab
use mantis_dns.Forms.CrudTab.{open_edit}
use mantis_dns.Dhcp.V6.Reservations.{
  Reservation6, Initial6, reservation6_values, reservation6_submitted, on_prefill6,
}
use mantis_dns.Dhcp.Page.{
  Lease6, reserve_from_lease6, Family, v4, v6, Lease, Page, family_of, tab_of, set_tab, set_family,
  reserve_from_lease, on_prefill,
}

-- The reservation of a lease, with its hardware address in the normal form.
abbrev pub reserved : Text → Lease → Reservation
reserved mac l = record {
  mac_address = mac;
  ip_address = l.ip_address;
  hostname = none;
  description = none;
  client_id = none;
  next_server = none;
  boot_filename = none;
  uefi_boot_filename = none;
  enabled = true;
}

abbrev pub form_submits : Option Initial → Option Reservation
unfolding submitted initial_values
form_submits none = none
form_submits (some i) = submitted (initial_values i)

family_of-set_tab : (t : Text) (ps : Params) → family_of (set_tab t ps) ≡ family_of ps
unfolding family_of set_tab
family_of-set_tab t ps = rw (get-set "family" "tab" t ps) refl

family_of-set_family : (f : Family) (ps : Params) → family_of (set_family f ps) ≡ f
unfolding family_of set_family
family_of-set_family v4 ps = rw (get-set "family" "family" (codes "4") ps) refl
family_of-set_family v6 ps = rw (get-set "family" "family" (codes "6") ps) refl

tab_of-set_tab : (t : Text) (ps : Params) → tab_of (set_tab t ps) ≡ t
unfolding tab_of set_tab
tab_of-set_tab t ps = rw (get-set "tab" "tab" t ps) refl

family_of-leased :
    (shared : Bool) (ps : Params)
    → family_of ps ≡ v4
    → family_of (set_tab (codes "reservations") (if shared then set_family v4 ps else ps)) ≡ v4
family_of-leased true ps e =
    family_of-set_tab (codes "reservations") (set_family v4 ps) ∙ family_of-set_family v4 ps
family_of-leased false ps e = family_of-set_tab (codes "reservations") ps ∙ e

abbrev prefilled : Lease → Initial
prefilled l = record {
  id = none;
  mac_address = some l.mac_address;
  ip_address = some l.ip_address;
  hostname = none;
  description = none;
  client_id = none;
  next_server = none;
  boot_filename = none;
  uefi_boot_filename = none;
  enabled = none;
}

submitted-prefilled :
    (mac : Text) (l : Lease)
    → normalize_mac l.mac_address ≡ some mac
    → is_empty (trim l.ip_address) ≡ false
    → submitted (initial_values (prefilled l)) ≡ some (reserved mac l)
unfolding submitted initial_values normalize_mac
submitted-prefilled mac l e ip = rw (e, normalize_mac-filled l.mac_address mac e, ip) refl

-- A lease of a scope, with a hardware address that has a normal form and an IP address that is not
-- blank, is reserved from the page of DHCPv4: the page then shows the reservations of DHCPv4 with the
-- scope of the lease, whether or not react-router shares one object between the two changes of the
-- URL; the tab opens its form; and the form, submitted without a change, reserves the IP address of
-- the lease for its hardware address in the normal form.
pub reserve_from_lease-submitted :
    (shared : Bool) (l : Lease) (mac : Text) (page : Page) (tab : Tab)
    → family_of page.params ≡ v4
    → truthy (some l.scope_id) ≡ true
    → normalize_mac l.mac_address ≡ some mac
    → is_empty (trim l.ip_address) ≡ false
    → let after = reserve_from_lease shared l page in
      let shown = on_prefill after.prefill4 after.scope_id4 tab in
      (family_of after.params ≡ v4)
      × (tab_of after.params ≡ codes "reservations")
      × (after.scope_id4 ≡ some l.scope_id)
      × (shown.modal_open ≡ true)
      × (form_submits shown.editing ≡ some (reserved mac l))
unfolding reserve_from_lease submitted initial_values open_prefilled
reserve_from_lease-submitted shared l mac page tab family scope e ip = rw (scope) (
  family_of-leased shared page.params family,
  tab_of-set_tab (codes "reservations") (if shared then set_family v4 page.params else page.params),
  refl,
  refl,
  submitted-prefilled mac l e ip,
)

family_of-leased6 :
    (shared : Bool) (ps : Params)
    → family_of ps ≡ v6
    → family_of (set_tab (codes "reservations") (if shared then set_family v6 ps else ps)) ≡ v6
family_of-leased6 true ps e =
    family_of-set_tab (codes "reservations") (set_family v6 ps) ∙ family_of-set_family v6 ps
family_of-leased6 false ps e = family_of-set_tab (codes "reservations") ps ∙ e

abbrev pub form6_submits : Option Initial6 → Option Reservation6
unfolding reservation6_submitted reservation6_values
form6_submits none = none
form6_submits (some i) = reservation6_submitted (reservation6_values i)

abbrev pub reserved6 : Lease6 → Reservation6
reserved6 l = record {
  duid = l.duid;
  ip_address = l.ip_address;
  hostname = none;
  description = none;
  enabled = true;
}

-- The same of DHCPv6: the form reserves the IP address of the lease for its DUID, as it stands there.
reserve_from_lease6-submitted :
    (shared : Bool) (l : Lease6) (page : Page) (tab : CrudTab.Tab Initial6)
    → family_of page.params ≡ v6
    → truthy (some l.scope_id) ≡ true
    → is_empty (trim l.duid) ≡ false
    → is_empty (trim l.ip_address) ≡ false
    → let after = reserve_from_lease6 shared l page in
      let shown = on_prefill6 after.prefill6 after.scope_id6 tab in
      (family_of after.params ≡ v6)
      × (tab_of after.params ≡ codes "reservations")
      × (after.scope_id6 ≡ some l.scope_id)
      × (shown.modal_open ≡ true)
      × (form6_submits shown.edit_target ≡ some (reserved6 l))
unfolding reserve_from_lease6 reservation6_submitted reservation6_values open_edit
reserve_from_lease6-submitted shared l page tab family scope duid ip =
    rw (scope, duid, ip)
      (
        family_of-leased6 shared page.params family,
        tab_of-set_tab (codes "reservations")
            (if shared then set_family v6 page.params else page.params),
        refl,
        refl,
        refl,
      )
