-- ===== src/Dhcp/Page.antt =====
-- apps/ui/src/pages/DhcpPage.tsx and dhcp/LeasesTab.tsx: the page's state, and a lease that becomes a
-- reservation.
pub mod Laws
use mantis_dns.Base.{
  ℕ, String, Bool, true, false, not, ◌&&◌, ◌||◌, Option, none, some, List, [], ◌∷◌, keep_if,
  if◌then◌else◌,
}
use mantis_dns.Base.Text.{Text, codes, is_empty, text_eq, includes, lower, trim}
use mantis_dns.Navigation.UrlFilters.{Params, get, set, or_default}
use mantis_dns.Api.Request.{truthy}
use mantis_dns.Forms.Optional.{or_blank}
use mantis_dns.Dhcp.V6.Reservations.{Prefill6}
use mantis_dns.Dhcp.Reservations.{ReservePrefill, Tab, open_prefilled}

pub data Family : Type 0 where
  v4 v6 : Family

-- `DhcpLease`, less what the page does not read, and its DHCPv6 counterpart.
pub record Lease : Type 0 where
  pub ip_address : Text
  pub mac_address : Text
  pub hostname : Option Text
  pub scope_id : String

pub record Lease6 : Type 0 where
  pub ip_address : Text
  pub duid : Text
  pub hostname : Option Text
  pub scope_id : String

pub record Page : Type 0 where
  pub params : Params
  pub scope_id4 : Option String
  pub scope_id6 : Option String
  pub prefill4 : Option ReservePrefill
  pub prefill6 : Option Prefill6

abbrev is_six : Option Text → Bool
is_six none = false
is_six (some t) = text_eq t (codes "6")

unfoldable pub family_of : Params → Family
unfolding get
family_of params = if is_six (get "family" params) then v6 else v4

unfoldable pub tab_of : Params → Text
unfolding get
tab_of params = or_default (codes "scopes") (get "tab" params)

abbrev family_text : Family → Text
family_text v4 = codes "4"
family_text v6 = codes "6"

-- `setFamily` and `setTab`, as functions of the parameters.
unfoldable pub set_family : Family → Params → Params
unfolding set
set_family f params = set "family" (family_text f) params

unfoldable pub set_tab : Text → Params → Params
unfolding set
set_tab t params = set "tab" t params

-- The calls of `setSearchParams` in one handler, of which the last decides. Its functions change the
-- object that they are given. `shared` tells whether react-router gives each of them the same object,
-- or a new copy of the parameters of the last rendering.
abbrev navigated : Bool → List (Params → Params) → Params → Params
navigated shared [] params = params
navigated shared (f ∷ []) params = f params
navigated shared (f ∷ g ∷ gs) params =
    navigated shared (g ∷ gs) (if shared then f params else params)

-- `reserveFromLease`, from a row of either tab of leases.
unfoldable pub reserve_from_lease : Bool → Lease → Page → Page
unfolding set_family set_tab
reserve_from_lease shared l page = record page {
  params = navigated shared (set_family v4 ∷ set_tab (codes "reservations") ∷ []) page.params;
  scope_id4 = some l.scope_id;
  prefill4 = some (record { ip_address = l.ip_address; mac_address = some l.mac_address });
}

unfoldable pub reserve_from_lease6 : Bool → Lease6 → Page → Page
unfolding set_family set_tab
reserve_from_lease6 shared l page = record page {
  params = navigated shared (set_family v6 ∷ set_tab (codes "reservations") ∷ []) page.params;
  scope_id6 = some l.scope_id;
  prefill6 = some (record { ip_address = l.ip_address; duid = l.duid });
}

-- `onPrefillConsumed`, once the tab has opened its form.
unfoldable prefill_consumed : Page → Page
prefill_consumed page = record page { prefill4 = none }

unfoldable prefill6_consumed : Page → Page
prefill6_consumed page = record page { prefill6 = none }

-- The effects that select the only scope there is.
unfoldable pub auto_select : List String → Option String → Option String
auto_select (id ∷ []) scope_id = if truthy scope_id then scope_id else some id
auto_select _ scope_id = scope_id

-- The effect of the tab of the reservations on `prefill` and `scopeId`.
abbrev pub on_prefill : Option ReservePrefill → Option String → Tab → Tab
unfolding open_prefilled
on_prefill none scope_id tab = tab
on_prefill (some p) scope_id tab = if truthy scope_id then open_prefilled p tab else tab

-- `filtered` of the leases.
unfoldable pub filtered_leases : Text → List Lease → List Lease
unfolding lower trim
filtered_leases search leases =
    let q = lower (trim search) in
    if is_empty q
    then leases
    else keep_if
        (λ l.
          includes (lower l.ip_address) q
          || includes (lower l.mac_address) q
          || includes (lower (or_blank l.hostname)) q)
        leases

-- `filtered` of the DHCPv6 leases.
unfoldable pub filtered_leases6 : Text → List Lease6 → List Lease6
unfolding lower trim
filtered_leases6 search leases =
    let q = lower (trim search) in
    if is_empty q
    then leases
    else keep_if
        (λ l.
          includes (lower l.ip_address) q
          || includes (lower l.duid) q
          || includes (lower (or_blank l.hostname)) q)
        leases
