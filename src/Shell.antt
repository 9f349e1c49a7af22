-- ===== src/Shell.antt =====
-- apps/ui/src/app/Shell.tsx and ErrorBoundary.tsx: the menu of the pages, and what is around a page.
pub mod Laws
use mantis_dns.Base.{
  Bool, true, false, not, Option, none, some, List, [], ◌∷◌, keep_if, if◌then◌else◌,
}
use mantis_dns.Base.Text.{Text, codes, starts_with, is_empty, text_eq}
use mantis_dns.Auth.Roles.{Role, admin, operator, AuthUser, has_role}
use mantis_dns.Navigation.UnsavedGuard.{Guard, confirm_navigation}

pub record NavItem : Type 0 where
  pub to : Text
  pub label_key : Text
  pub min_role : Option Role

abbrev item : Text → Text → Option Role → NavItem
item to label_key min_role = record { to = to; label_key = label_key; min_role = min_role }

-- `NAV_ITEMS`.
unfoldable pub nav_items : List NavItem
nav_items =
    item (codes "/dashboard") (codes "nav.dashboard") none
    ∷ item (codes "/tenants") (codes "nav.tenants") none
    ∷ item (codes "/feeds") (codes "nav.feeds") none
    ∷ item (codes "/zones") (codes "nav.dnsZones") none
    ∷ item (codes "/analytics") (codes "nav.analytics") none
    ∷ item (codes "/query-log") (codes "nav.queryLog") (some operator)
    ∷ item (codes "/audit") (codes "nav.auditLog") (some operator)
    ∷ item (codes "/users") (codes "nav.users") (some admin)
    ∷ item (codes "/upstream") (codes "nav.dnsUpstream") (some operator)
    ∷ item (codes "/dhcp") (codes "nav.dhcp") (some operator)
    ∷ item (codes "/settings") (codes "nav.settings") none
    ∷ []

abbrev allows : Option AuthUser → Option Role → Bool
allows user none = true
allows user (some r) = has_role user (r ∷ [])

-- `visibleNavItems`.
unfoldable pub visible_nav_items : Option AuthUser → List NavItem
unfolding nav_items
visible_nav_items user = keep_if (λ i. allows user i.min_role) nav_items

-- `active` of an item, at `location.pathname`.
unfoldable pub is_active : Text → NavItem → Bool
is_active pathname i = starts_with pathname i.to

-- A click on an item. Where nothing is blocked, the link itself navigates.
unfoldable pub click_item : NavItem → Guard → Guard
unfolding confirm_navigation
click_item i g =
    if not g.is_blocked then record g { visited = i.to ∷ g.visited } else confirm_navigation i.to g

-- The error boundary around the page at a path, which is its key.
pub record Boundary : Type 0 where
  pub path : Text
  pub error : Option Text
  pub show_details : Bool

unfoldable pub mounted_at : Text → Boundary
mounted_at path = record { path = path; error = none; show_details = false }

pub data BoundaryEvent : Type 0 where
  -- A page throws while it is rendered.
  thrown : Text → BoundaryEvent
  -- "Show technical details" and "Try again".
  toggled retried : BoundaryEvent
  -- The shell is rendered at a path.
  rendered_at : Text → BoundaryEvent

unfoldable pub boundary_step : BoundaryEvent → Boundary → Boundary
unfolding mounted_at
boundary_step (thrown error) b = record b { error = some error; show_details = false }
boundary_step toggled b = record b { show_details = not b.show_details }
boundary_step retried b = record b { error = none }
boundary_step (rendered_at path) b = if text_eq b.path path then b else mounted_at path
