-- ===== src/Dashboard/Widgets.antt =====
-- apps/ui/src/pages/dashboard/widgets: what the rows of the widgets are, and the query log that a click
-- on one of them opens. A link is its path and its search parameters; the browser writes them as text
-- and reads them back.
pub mod Laws
use mantis_dns.Base.{
  ℕ, ◌-◌, String, Bool, true, false, not, ◌&&◌, Option, none, some, List, [], ◌∷◌, all, length,
  if◌then◌else◌, ◌==◌, leb, ltb,
}
use mantis_dns.Base.Sort.{sort_by}
use mantis_dns.Base.Sort.Top.{take_first}
use mantis_dns.Base.Text.{Text, codes, is_empty, text_eq, show}
use mantis_dns.Navigation.UrlFilters.{Params, set}

-- A property of `params`, which may be `undefined`.
abbrev pub Entries : Type 0
Entries = List (String × Option Text)

-- `if (v) search.set(k, v)`.
abbrev pub set_truthy : String → Option Text → Params → Params
set_truthy k none ps = ps
set_truthy k (some v) ps = if is_empty v then ps else set k v ps

-- The loop over `Object.entries(params)`.
abbrev pub set_entries : Entries → Params → Params
set_entries [] ps = ps
set_entries ((k, v) ∷ es) ps = set_entries es (set_truthy k v ps)

-- `new URLSearchParams({ hours: String(hours) })`.
abbrev pub window : ℕ → Params
window hours = ("hours", show hours) ∷ []

-- `queryLogHref`.
unfoldable pub query_log_href : ℕ → Entries → Text × Params
query_log_href hours es = (codes "/query-log", set_entries es (window hours))

-- The rows and the links of the decisions, the categories, the domains, the clients and the events.
unfoldable decision_href : ℕ → Text → Text × Params
unfolding query_log_href
decision_href hours decision = query_log_href hours (("decision", some decision) ∷ [])

unfoldable category_href : ℕ → Text → Text × Params
unfolding query_log_href
category_href hours category =
    query_log_href hours (("category", some category) ∷ ("decision", some (codes "block")) ∷ [])

unfoldable pub domain_href : ℕ → Text → Text → Text × Params
unfolding query_log_href
domain_href hours qname decision =
    query_log_href hours (("qname", some qname) ∷ ("decision", some decision) ∷ [])

unfoldable client_href : ℕ → Text → Text × Params
unfolding query_log_href
client_href hours client_ip = query_log_href hours (("client_ip", some client_ip) ∷ [])

-- `feedStatus` of the feed health: the labels.
unfoldable feed_status : Bool → Option ℕ → Text
feed_status enabled count =
    if not enabled
    then codes "disabled"
    else elim count [ none ↦ codes "pending" | some n ↦ codes "ok" ]

-- The feeds that are shown, and how many more there are, if any.
unfoldable pub feed_rows : {A : Type 0} → List A → List A × Option ℕ
feed_rows feeds =
    (take_first 8 feeds, if ltb 8 (length feeds) then some (length feeds - 8) else none)

-- `GroupBreakdown`, less what is only drawn.
pub record GroupBreakdown : Type 0 where
  pub group_id : Text
  pub total : ℕ
  pub blocked : ℕ

-- `sorted`: the largest total first.
unfoldable sorted : List GroupBreakdown → List GroupBreakdown
sorted groups = sort_by (λ a b. leb b.total a.total) groups

-- A click on a group, and on the badge: the group that the dashboard is scoped to.
unfoldable pub scope_clicked : Text → Option Text → Option Text
scope_clicked group_id none = some group_id
scope_clicked group_id (some scoped) = if text_eq group_id scoped then none else some group_id

unfoldable scope_cleared : Option Text → Option Text
scope_cleared scoped = none

-- Whether the volume of the queries has nothing to draw.
unfoldable no_volume : List (ℕ × ℕ) → Bool
no_volume points = all (λ p. p.0 == 0 && p.1 == 0) points
