-- ===== src/Api/Hooks/Monitoring.antt =====
-- apps/ui/src/api/hooks.ts: analytics, the logs, SIEM sinks and the client registry.
use mantis_dns.Base.{ℕ, String, Bool, Option, none, some, List, [], ◌∷◌, ◌++◌, ◌==◌, if◌then◌else◌}
use mantis_dns.Base.Json.{Json}
use mantis_dns.Api.Request.{
  typed, raw, get, post, put, patch, delete, lit, param, num, flag, QueryValue, request, sending,
  truthy, word, int, bit, opt_word, opt_int, unwrapped, raw_json, QuerySpec, query, invalidate,
  Mutation, mutation, filter_by,
}

-- The parameter `hours = 24`.
abbrev default_hours : Option ℕ → ℕ
default_hours none = 24
default_hours (some h) = h

unfoldable pub use_analytics_summary : Option ℕ → QuerySpec
use_analytics_summary hours =
    record (query (word "analytics-summary" ∷ int (default_hours hours) ∷ [])
      (record (request typed get (lit "/api/v1/analytics/summary" ∷ [])) {
        query = ("hours", num (default_hours hours)) ∷ [];
      })
      unwrapped) { refetch_interval = some 15000 }

unfoldable pub use_analytics_timeseries : Option ℕ → QuerySpec
use_analytics_timeseries hours =
    record (query (word "analytics-timeseries" ∷ int (default_hours hours) ∷ [])
      (record (request typed get (lit "/api/v1/analytics/timeseries" ∷ [])) {
        query = ("hours", num (default_hours hours)) ∷ [];
      })
      unwrapped) { refetch_interval = some 15000 }

unfoldable pub use_analytics_by_group : Option ℕ → QuerySpec
use_analytics_by_group hours =
    record (query (word "analytics-by-group" ∷ int (default_hours hours) ∷ [])
      (record (request typed get (lit "/api/v1/analytics/by-group" ∷ [])) {
        query = ("hours", num (default_hours hours)) ∷ [];
      })
      unwrapped) { refetch_interval = some 15000 }

abbrev pub audit_page_size : ℕ
audit_page_size = 50

unfoldable pub use_audit_log : Option String → ℕ → QuerySpec
use_audit_log resource_type offset =
    record (query (word "audit-log" ∷ opt_word resource_type ∷ int offset ∷ [])
      (record (request raw get (lit "/api/v1/audit-log" ∷ [])) {
        query =
            ("limit", num audit_page_size)
            ∷ ("offset", num offset)
            ∷ filter_by "resource_type" resource_type;
      })
      raw_json) { refetch_interval = some 15000 }

abbrev pub query_log_page_size : ℕ
query_log_page_size = 50

-- The parameter object of `useQueryLog`.
pub record QueryLogParams : Type 0 where
  pub offset : ℕ
  pub decision : Option String
  pub group_id : Option String
  pub qname : Option String
  pub client_ip : Option String
  pub qtype : Option String
  pub matched_category : Option String
  pub hours : Option ℕ

-- `hours ? { hours } : {}`: zero is falsy.
abbrev hours_param : Option ℕ → List (String × QueryValue)
hours_param none = []
hours_param (some h) = if h == 0 then [] else ("hours", num h) ∷ []

unfoldable pub use_query_log : QueryLogParams → QuerySpec
use_query_log p =
    record (query
      (word "query-log"
        ∷ int p.offset
        ∷ opt_word p.decision
        ∷ opt_word p.group_id
        ∷ opt_word p.qname
        ∷ opt_word p.client_ip
        ∷ opt_word p.qtype
        ∷ opt_word p.matched_category
        ∷ opt_int p.hours
        ∷ [])
      (record (request raw get (lit "/api/v1/query-log" ∷ [])) {
        query =
            ("limit", num query_log_page_size)
            ∷ ("offset", num p.offset)
            ∷ (filter_by "decision" p.decision
                ++ filter_by "group_id" p.group_id
                ++ filter_by "qname" p.qname
                ++ filter_by "client_ip" p.client_ip
                ++ filter_by "qtype" p.qtype
                ++ filter_by "matched_category" p.matched_category
                ++ hours_param p.hours);
      })
      raw_json) { refetch_interval = some 30000 }

unfoldable pub use_siem_syslog_sinks : QuerySpec
use_siem_syslog_sinks =
    record (query (word "siem-syslog" ∷ []) (request typed get (lit "/api/v1/siem/syslog" ∷ []))
      unwrapped) { refetch_interval = some 15000 }

unfoldable pub use_create_siem_syslog_sink : Mutation Json
use_create_siem_syslog_sink =
    mutation (λ body. sending typed post (lit "/api/v1/siem/syslog" ∷ []) body)
      (invalidate (word "siem-syslog" ∷ []) ∷ [])

unfoldable pub use_update_siem_syslog_sink : Mutation (String × Json)
use_update_siem_syslog_sink =
    mutation
      (λ (syslog_id, body).
        sending typed patch (lit "/api/v1/siem/syslog/" ∷ param (some syslog_id) ∷ []) body)
      (invalidate (word "siem-syslog" ∷ []) ∷ [])

unfoldable pub use_delete_siem_syslog_sink : Mutation String
use_delete_siem_syslog_sink =
    mutation
      (λ syslog_id. request typed delete (lit "/api/v1/siem/syslog/" ∷ param (some syslog_id) ∷ []))
      (invalidate (word "siem-syslog" ∷ []) ∷ [])

unfoldable pub use_test_siem_syslog_sink : Mutation String
use_test_siem_syslog_sink =
    mutation
      (λ syslog_id.
        request typed post (lit "/api/v1/siem/syslog/" ∷ param (some syslog_id) ∷ lit "/test" ∷ []))
      ([])

unfoldable pub use_clients : Option String → Bool → QuerySpec
use_clients tenant_id unregistered_only =
    record (query (word "clients" ∷ opt_word tenant_id ∷ bit unregistered_only ∷ [])
      (record (request typed get (lit "/api/v1/tenants/" ∷ param tenant_id ∷ lit "/clients" ∷ [])) {
        query = ("unregistered_only", flag unregistered_only) ∷ [];
      })
      unwrapped) { enabled = truthy tenant_id; refetch_interval = some 15000 }

unfoldable pub use_register_client : Option String → Mutation (String × Json)
use_register_client tenant_id =
    mutation
      (λ (ip, body).
        sending typed put
          (lit "/api/v1/tenants/" ∷ param tenant_id ∷ lit "/clients/" ∷ param (some ip) ∷ []) body)
      (invalidate (word "clients" ∷ opt_word tenant_id ∷ []) ∷ [])

unfoldable pub use_delete_client : Option String → Mutation String
use_delete_client tenant_id =
    mutation
      (λ ip.
        request typed delete
          (lit "/api/v1/tenants/" ∷ param tenant_id ∷ lit "/clients/" ∷ param (some ip) ∷ []))
      (invalidate (word "clients" ∷ opt_word tenant_id ∷ []) ∷ [])
