-- ===== src/Logs/QueryLog.antt =====
-- apps/ui/src/pages/QueryLogPage.tsx: the filters that live in the URL, the two text inputs with their
-- debounced values, the query that the page makes, its handlers and its two buttons.
pub mod Laws
use mantis_dns.Base.{
  ℕ, ◌+◌, ◌-◌, ◌/◌, String, Bool, true, false, not, ◌&&◌, Option, none, some, List, [], ◌∷◌,
  if◌then◌else◌, ◌==◌, ltb,
}
use mantis_dns.Base.Text.{Text, codes, is_empty, or_text, show}
use mantis_dns.Base.Text.Decimal.{number}
use mantis_dns.Api.Hooks.Monitoring.{query_log_page_size}
use mantis_dns.Navigation.UrlFilters.{Params, get, values, set_filters}

-- The argument of `useUrlFilters`.
abbrev pub log_defaults : Params
log_defaults =
    ("decision", [])
    ∷ ("hours", codes "24")
    ∷ ("qname", [])
    ∷ ("client_ip", [])
    ∷ ("qtype", [])
    ∷ ("category", [])
    ∷ ("offset", codes "0")
    ∷ []

-- The search parameters of the URL, and the `useState` and `useDebouncedValue` of the two inputs.
pub record LogState : Type 0 where
  pub params : Params
  pub qname_input : Text
  pub debounced_qname : Text
  pub client_ip_input : Text
  pub debounced_client_ip : Text

abbrev text_of : Option Text → Text
text_of none = []
text_of (some v) = v

-- `filters[name]`.
unfoldable pub filter_value : String → Params → Text
unfolding get values
filter_value k ps = text_of (get k (values log_defaults ps))

-- The page is opened at a URL.
unfoldable pub open_log : Params → LogState
unfolding filter_value
open_log ps = record {
  params = ps;
  qname_input = filter_value "qname" ps;
  debounced_qname = filter_value "qname" ps;
  client_ip_input = filter_value "client_ip" ps;
  debounced_client_ip = filter_value "client_ip" ps;
}

-- `Number(filters.offset || 0)`. Only a URL that is typed by hand has anything but digits there; that is
-- `none`, which the handlers treat as NaN.
unfoldable pub log_offset : LogState → Option ℕ
unfolding filter_value number
log_offset s = number (or_text (filter_value "offset" s.params) (codes "0"))

-- `v || undefined`.
abbrev nonempty : Text → Option Text
nonempty v = if is_empty v then none else some v

-- The argument of `useQueryLog`; `hours` is `filters.hours ? Number(filters.hours) : undefined`.
pub record LogQuery : Type 0 where
  pub offset : Option ℕ
  pub decision : Option Text
  pub qname : Option Text
  pub client_ip : Option Text
  pub qtype : Option Text
  pub matched_category : Option Text
  pub hours : Option (Option ℕ)

unfoldable pub log_query : LogState → LogQuery
unfolding filter_value log_offset number
log_query s = record {
  offset = log_offset s;
  decision = nonempty (filter_value "decision" s.params);
  qname = nonempty s.debounced_qname;
  client_ip = nonempty s.debounced_client_ip;
  qtype = nonempty (filter_value "qtype" s.params);
  matched_category = nonempty (filter_value "category" s.params);
  hours =
      if is_empty (filter_value "hours" s.params)
      then none
      else some (number (filter_value "hours" s.params));
}

unfoldable pub has_prev : LogState → Bool
unfolding log_offset
has_prev s = elim (log_offset s) [ none ↦ false | some o ↦ ltb 0 o ]

-- `(data?.length ?? 0) === QUERY_LOG_PAGE_SIZE`; `none` is no data yet.
unfoldable pub has_next : Option ℕ → Bool
has_next none = false
has_next (some rows) = rows == query_log_page_size

abbrev text_or_empty : Option Text → Text
text_or_empty none = []
text_or_empty (some v) = v

-- `String(offset)`.
abbrev show_offset : Option ℕ → Text
show_offset none = codes "NaN"
show_offset (some o) = show o

abbrev plus : ℕ → Option ℕ → Option ℕ
plus k none = none
plus k (some o) = some (o + k)

abbrev minus : ℕ → Option ℕ → Option ℕ
minus k none = none
minus k (some o) = some (o - k)

abbrev set_log : List (String × Option Text) → LogState → LogState
set_log patch s = record s { params = set_filters log_defaults patch s.params }

abbrev to_start : String × Option Text
to_start = ("offset", some (codes "0"))

-- The handlers, the two effects that follow a debounced value once typing settles, and the buttons,
-- which are pressed with the rows that are shown and `isLoading`.
pub data LogEvent : Type 0 where
  decision_change hours_change qname_change client_ip_change : Text → LogEvent
  qtype_change category_change : Option Text → LogEvent
  qname_settled client_ip_settled : LogEvent
  previous : Bool → LogEvent
  next : Option ℕ → Bool → LogEvent

unfoldable pub log_step : LogEvent → LogState → LogState
unfolding log_offset has_prev has_next set_filters
log_step (decision_change v) s = set_log (("decision", some v) ∷ to_start ∷ []) s
log_step (hours_change v) s = set_log (("hours", some v) ∷ to_start ∷ []) s
log_step (qname_change v) s = set_log (to_start ∷ []) (record s { qname_input = v })
log_step (client_ip_change v) s = set_log (to_start ∷ []) (record s { client_ip_input = v })
log_step (qtype_change v) s = set_log (("qtype", some (text_or_empty v)) ∷ to_start ∷ []) s
log_step (category_change v) s = set_log (("category", some (text_or_empty v)) ∷ to_start ∷ []) s
log_step qname_settled s =
    set_log (("qname", some s.qname_input) ∷ []) (record s { debounced_qname = s.qname_input })
log_step client_ip_settled s =
    set_log (("client_ip", some s.client_ip_input) ∷ [])
      (record s { debounced_client_ip = s.client_ip_input })
log_step (previous is_loading) s =
    if has_prev s && not is_loading
    then set_log (("offset", some (show_offset (minus query_log_page_size (log_offset s)))) ∷ []) s
    else s
log_step (next rows is_loading) s =
    if has_next rows && not is_loading
    then set_log (("offset", some (show_offset (plus query_log_page_size (log_offset s)))) ∷ []) s
    else s

unfoldable pub log_run : List LogEvent → LogState → LogState
unfolding log_step
log_run [] s = s
log_run (e ∷ es) s = log_run es (log_step e s)
