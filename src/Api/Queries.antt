-- ===== src/Api/Queries.antt =====
-- The query hooks of apps/ui/src/api/hooks.ts as values: which one is used, with what arguments.
use mantis_dns.Base.{ℕ, String, Bool, Option}
use mantis_dns.Api.Request.{QuerySpec}
use mantis_dns.Api.Hooks.Accounts.{use_users, use_tenants, use_groups}
use mantis_dns.Api.Hooks.Policy.{
  use_policy, use_block_page_template, use_top_domains, use_categories, use_feeds,
}
use mantis_dns.Api.Hooks.Upstream.{
  use_upstream_resolvers, use_upstream_pools, use_upstream_routes, use_upstream_tenant_policy,
}
use mantis_dns.Api.Hooks.Dhcp.{
  use_dhcp_scopes, use_dhcp_reservations, use_dhcp_leases, use_dhcp_stats, use_dhcp_interfaces,
  use_dhcp_health,
}
use mantis_dns.Api.Hooks.Dhcp6.{use_dhcp_scopes6, use_dhcp_reservations6, use_dhcp_leases6}
use mantis_dns.Api.Hooks.Zones.{use_zones, use_zone, use_records}
use mantis_dns.Api.Hooks.Monitoring.{
  use_analytics_summary, use_analytics_timeseries, use_analytics_by_group, use_audit_log,
  use_query_log, use_siem_syslog_sinks, use_clients, QueryLogParams,
}

pub data QueryHook : Type 0 where
  users : QueryHook
  tenants : QueryHook
  groups : Option String → QueryHook
  policy : Option String → QueryHook
  block_page_template : Option String → QueryHook
  top_domains : Option String → QueryHook
  categories : QueryHook
  feeds : QueryHook
  upstream_resolvers : QueryHook
  upstream_pools : QueryHook
  upstream_routes : Option String → QueryHook
  upstream_tenant_policy : Option String → QueryHook
  dhcp_scopes : Option String → QueryHook
  dhcp_reservations : Option String → QueryHook
  dhcp_leases : Option String → QueryHook
  dhcp_stats : QueryHook
  dhcp_interfaces : QueryHook
  dhcp_health : QueryHook
  dhcp_scopes6 : Option String → QueryHook
  dhcp_reservations6 : Option String → QueryHook
  dhcp_leases6 : Option String → QueryHook
  zones : QueryHook
  zone : String → QueryHook
  records : String → QueryHook
  analytics_summary : Option ℕ → QueryHook
  analytics_timeseries : Option ℕ → QueryHook
  analytics_by_group : Option ℕ → QueryHook
  audit_log : Option String → ℕ → QueryHook
  query_log : QueryLogParams → QueryHook
  siem_syslog_sinks : QueryHook
  clients : Option String → Bool → QueryHook

unfoldable pub query_spec : QueryHook → QuerySpec
unfolding use_users use_tenants use_groups use_policy use_block_page_template use_top_domains
    use_categories use_feeds use_upstream_resolvers use_upstream_pools use_upstream_routes
    use_upstream_tenant_policy use_dhcp_scopes use_dhcp_reservations use_dhcp_leases use_dhcp_stats
    use_dhcp_interfaces use_dhcp_health use_dhcp_scopes6 use_dhcp_reservations6 use_dhcp_leases6
    use_zones use_zone use_records use_analytics_summary use_analytics_timeseries
    use_analytics_by_group use_audit_log use_query_log use_siem_syslog_sinks use_clients
query_spec users = use_users
query_spec tenants = use_tenants
query_spec (groups t) = use_groups t
query_spec (policy t) = use_policy t
query_spec (block_page_template t) = use_block_page_template t
query_spec (top_domains t) = use_top_domains t
query_spec categories = use_categories
query_spec feeds = use_feeds
query_spec upstream_resolvers = use_upstream_resolvers
query_spec upstream_pools = use_upstream_pools
query_spec (upstream_routes t) = use_upstream_routes t
query_spec (upstream_tenant_policy t) = use_upstream_tenant_policy t
query_spec (dhcp_scopes t) = use_dhcp_scopes t
query_spec (dhcp_reservations t) = use_dhcp_reservations t
query_spec (dhcp_leases t) = use_dhcp_leases t
query_spec dhcp_stats = use_dhcp_stats
query_spec dhcp_interfaces = use_dhcp_interfaces
query_spec dhcp_health = use_dhcp_health
query_spec (dhcp_scopes6 t) = use_dhcp_scopes6 t
query_spec (dhcp_reservations6 t) = use_dhcp_reservations6 t
query_spec (dhcp_leases6 t) = use_dhcp_leases6 t
query_spec zones = use_zones
query_spec (zone z) = use_zone z
query_spec (records z) = use_records z
query_spec (analytics_summary h) = use_analytics_summary h
query_spec (analytics_timeseries h) = use_analytics_timeseries h
query_spec (analytics_by_group h) = use_analytics_by_group h
query_spec (audit_log t n) = use_audit_log t n
query_spec (query_log p) = use_query_log p
query_spec siem_syslog_sinks = use_siem_syslog_sinks
query_spec (clients t b) = use_clients t b
