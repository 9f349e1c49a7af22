-- ===== src/Dashboard/Queries.antt =====
-- apps/ui/src/pages/DashboardPage.tsx: the queries of the dashboard, under the chosen hours and the
-- chosen group. A group that is `null` in a query key hashes like one that is `undefined`.
use mantis_dns.Base.{
  ℕ, String, str_eq, if◌then◌else◌, Option, none, some, List, [], ◌∷◌, ◌≡◌, refl, ap, sym, ◌∙◌,
}
use mantis_dns.Api.Request.{
  get, lit, QueryValue, num, text, undefined, raw, Request, request, word, int, QueryKey, opt_word,
  raw_json, QuerySpec, query,
}

pub data DashboardQuery : Type 0 where
  summary timeseries by_group top_clients categories recent_blocks latency query_mix prev_summary :
      DashboardQuery

-- `groupScope ?? undefined`.
abbrev group_id : Option String → QueryValue
group_id none = undefined
group_id (some g) = text g

abbrev analytics : String → List (String × QueryValue) → Request
analytics path params = record (request raw get (lit path ∷ [])) { query = params }

abbrev refreshed : ℕ → QueryKey → Request → QuerySpec
refreshed ms key req = record (query key req raw_json) { refetch_interval = some ms }

unfoldable pub dashboard_query : ℕ → Option String → DashboardQuery → QuerySpec
dashboard_query hours scope summary =
    refreshed 30000 (word "dashboard-summary" ∷ int hours ∷ opt_word scope ∷ []) (
      analytics "/api/v1/analytics/summary"
        (("hours", num hours) ∷ ("group_id", group_id scope) ∷ []))
dashboard_query hours scope timeseries =
    refreshed 30000 (word "dashboard-timeseries" ∷ int hours ∷ opt_word scope ∷ []) (
      analytics "/api/v1/analytics/timeseries"
        (("hours", num hours) ∷ ("group_id", group_id scope) ∷ []))
dashboard_query hours scope by_group =
    refreshed 30000 (word "dashboard-by-group" ∷ int hours ∷ [])
      (analytics "/api/v1/analytics/by-group" (("hours", num hours) ∷ []))
dashboard_query hours scope top_clients =
    refreshed 30000 (word "dashboard-top-clients" ∷ int hours ∷ opt_word scope ∷ []) (
      analytics "/api/v1/analytics/top-clients"
        (("hours", num hours) ∷ ("limit", num 10) ∷ ("group_id", group_id scope) ∷ []))
dashboard_query hours scope categories =
    refreshed 30000 (word "dashboard-categories" ∷ int hours ∷ opt_word scope ∷ []) (
      analytics "/api/v1/analytics/top-categories"
        (("hours", num hours) ∷ ("group_id", group_id scope) ∷ []))
dashboard_query hours scope recent_blocks =
    refreshed 10000 (word "dashboard-recent-blocks" ∷ int hours ∷ opt_word scope ∷ []) (
      analytics "/api/v1/analytics/recent-events" (
        ("decision", text "block")
        ∷ ("limit", num 25)
        ∷ ("hours", num hours)
        ∷ ("group_id", group_id scope)
        ∷ []))
dashboard_query hours scope latency =
    refreshed 30000 (word "dashboard-latency" ∷ int hours ∷ opt_word scope ∷ []) (
      analytics "/api/v1/analytics/latency"
        (("hours", num hours) ∷ ("group_id", group_id scope) ∷ []))
dashboard_query hours scope query_mix =
    refreshed 30000 (word "dashboard-query-mix" ∷ int hours ∷ opt_word scope ∷ []) (
      analytics "/api/v1/analytics/query-mix"
        (("hours", num hours) ∷ ("group_id", group_id scope) ∷ []))
dashboard_query hours scope prev_summary =
    refreshed 30000 (word "dashboard-summary-prev" ∷ int hours ∷ opt_word scope ∷ []) (
      analytics "/api/v1/analytics/summary"
        (("hours", num hours) ∷ ("offset_hours", num hours) ∷ ("group_id", group_id scope) ∷ []))

-- The query that an entry of the cache belongs to, and its request.
abbrev named : String → DashboardQuery
named n =
    if str_eq n "dashboard-summary"
    then summary
    else if str_eq n "dashboard-timeseries"
    then timeseries
    else if str_eq n "dashboard-by-group"
    then by_group
    else if str_eq n "dashboard-top-clients"
    then top_clients
    else if str_eq n "dashboard-categories"
    then categories
    else if str_eq n "dashboard-recent-blocks"
    then recent_blocks
    else if str_eq n "dashboard-latency"
    then latency
    else if str_eq n "dashboard-query-mix"
    then query_mix
    else prev_summary

abbrev scope_of : QueryKey → Option String
scope_of (word g ∷ key) = some g
scope_of _ = none

abbrev request_of : QueryKey → Request
request_of (word n ∷ int h ∷ key) = (dashboard_query h (scope_of key) (named n)).query_fn
request_of _ = request raw get []

request_of-query_key :
    (h : ℕ) (g : Option String) (q : DashboardQuery)
    → request_of (dashboard_query h g q).query_key ≡ (dashboard_query h g q).query_fn
unfolding dashboard_query
request_of-query_key h none summary = refl
request_of-query_key h (some g) summary = refl
request_of-query_key h none timeseries = refl
request_of-query_key h (some g) timeseries = refl
request_of-query_key h none by_group = refl
request_of-query_key h (some g) by_group = refl
request_of-query_key h none top_clients = refl
request_of-query_key h (some g) top_clients = refl
request_of-query_key h none categories = refl
request_of-query_key h (some g) categories = refl
request_of-query_key h none recent_blocks = refl
request_of-query_key h (some g) recent_blocks = refl
request_of-query_key h none latency = refl
request_of-query_key h (some g) latency = refl
request_of-query_key h none query_mix = refl
request_of-query_key h (some g) query_mix = refl
request_of-query_key h none prev_summary = refl
request_of-query_key h (some g) prev_summary = refl

-- Two queries of the dashboard that share an entry of the cache, under any hours and groups, send the
-- same request.
pub dashboard_query-key :
    (h k : ℕ) (g s : Option String) (q r : DashboardQuery)
    → (dashboard_query h g q).query_key ≡ (dashboard_query k s r).query_key
    → (dashboard_query h g q).query_fn ≡ (dashboard_query k s r).query_fn
dashboard_query-key h k g s q r e =
    sym (request_of-query_key h g q) ∙ ap request_of e ∙ request_of-query_key k s r
