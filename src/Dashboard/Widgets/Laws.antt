-- ===== src/Dashboard/Widgets/Laws.antt =====
-- From a row of the dashboard to the query log.
use mantis_dns.Base.{
  ℕ, String, str_eq, eq_iff, Option, none, some, [], ◌∷◌, ◌≡◌, refl, arith, if◌then◌else◌,
  Bool-cases, inl, inr,
}
use mantis_dns.Base.Text.{Text, is_empty}
use mantis_dns.Base.Text.Decimal.{number-show, is_empty-show}
use mantis_dns.Navigation.UrlFilters.{Params, get, values, or_default}
use mantis_dns.Navigation.UrlFilters.Laws.{get-set, in_patch, IsObject}
use mantis_dns.Logs.QueryLog.{log_query, open_log, filter_value, log_offset}
use mantis_dns.Dashboard.Widgets.{Entries, set_truthy, set_entries, window, query_log_href}

-- What an entry leaves in the link, over what was there.
abbrev pub entry : Option (Option Text) → Option Text → Option Text
entry none before = before
entry (some none) before = before
entry (some (some v)) before = if is_empty v then before else some v

get-set_truthy :
    (j k : String) (v : Option Text) (ps : Params)
    → get j (set_truthy k v ps) ≡ (if str_eq k j then entry (some v) (get j ps) else get j ps)
get-set_truthy j k none ps = elim (Bool-cases (str_eq k j)) [
  | inl e ↦ rw e refl
  | inr e ↦ rw e refl
]
get-set_truthy j k (some v) ps = ground (arith, get-set j k v ps)

get-set_entries :
    (es : Entries) (ps : Params) (j : String)
    → IsObject es
    → get j (set_entries es ps) ≡ entry (in_patch j es) (get j ps)
get-set_entries [] ps j o = refl
get-set_entries ((k, v) ∷ es) ps j o =
    ground
      (arith, eq_iff k j, get-set_truthy j k v ps, get-set_entries es (set_truthy k v ps) j o.1)

-- The value of a filter in the object that a link is made of, if it has one that is not empty.
abbrev pub asked : String → Entries → Option Text
asked k es = entry (in_patch k es) none

abbrev nonempty : Text → Option Text
nonempty v = if is_empty v then none else some v

nonempty-entry : (v : Option (Option Text)) → nonempty (or_default [] (entry v none)) ≡ entry v none
nonempty-entry none = refl
nonempty-entry (some none) = refl
nonempty-entry (some (some v)) = elim (Bool-cases (is_empty v)) [
  | inl e ↦ rw e refl
  | inr e ↦ rw e (rw e refl)
]

-- The query log that is opened by a link with a time window and filters, each of them once and none of
-- them the window or the offset, asks for the first page of exactly the rows of that window that meet
-- the filters that have a value: a filter that is undefined or empty in the link is not set.
pub log_query-query_log_href :
    (hours : ℕ) (es : Entries)
    → IsObject es
    → in_patch "hours" es ≡ none
    → in_patch "offset" es ≡ none
    → log_query (open_log (query_log_href hours es).1) ≡ record {
      offset = some 0;
      decision = asked "decision" es;
      qname = asked "qname" es;
      client_ip = asked "client_ip" es;
      qtype = asked "qtype" es;
      matched_category = asked "category" es;
      hours = some (some hours);
    }
unfolding log_query open_log filter_value log_offset query_log_href values
log_query-query_log_href hours es o h f =
    rw
      (
        get-set_entries es (window hours) "hours" o,
        get-set_entries es (window hours) "offset" o,
        get-set_entries es (window hours) "decision" o,
        get-set_entries es (window hours) "qname" o,
        get-set_entries es (window hours) "client_ip" o,
        get-set_entries es (window hours) "qtype" o,
        get-set_entries es (window hours) "category" o,
        h,
        f,
        nonempty-entry (in_patch "decision" es),
        nonempty-entry (in_patch "qname" es),
        nonempty-entry (in_patch "client_ip" es),
        nonempty-entry (in_patch "qtype" es),
        nonempty-entry (in_patch "category" es),
        is_empty-show hours,
        number-show hours,
      )
      refl
