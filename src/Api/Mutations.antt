-- ===== src/Api/Mutations.antt =====
-- The mutation hooks of apps/ui/src/api/hooks.ts as values: which one is used, with its input.
use mantis_dns.Base.{String, Option, List}
use mantis_dns.Base.Json.{Json}
use mantis_dns.Base.Text.{Text}
use mantis_dns.Api.Request.{Request, CacheOp}
use mantis_dns.Api.Hooks.Accounts.{
  use_create_user, use_update_user, use_delete_user, use_change_password, use_create_tenant,
  use_delete_tenant, use_create_group, use_set_group_subnet, use_rename_group, use_delete_group,
}
use mantis_dns.Api.Hooks.Policy.{
  use_upsert_policy, use_compile_bundle, use_upsert_block_page_template, use_test_policy,
  use_create_feed, use_update_feed, use_delete_feed, use_ingest_feed_now,
}
use mantis_dns.Api.Hooks.Upstream.{
  use_create_upstream_resolver, use_update_upstream_resolver, use_delete_upstream_resolver,
  use_probe_upstream_resolver, use_create_upstream_pool, use_update_upstream_pool,
  use_delete_upstream_pool, use_upsert_pool_member, use_remove_pool_member,
  use_create_upstream_route, use_update_upstream_route, use_delete_upstream_route,
  use_upsert_upstream_tenant_policy, PoolMemberInput,
}
use mantis_dns.Api.Hooks.Dhcp.{
  use_create_dhcp_scope, use_update_dhcp_scope, use_delete_dhcp_scope, use_create_dhcp_reservation,
  use_update_dhcp_reservation, use_delete_dhcp_reservation,
}
use mantis_dns.Api.Hooks.Dhcp6.{
  use_create_dhcp_scope6, use_update_dhcp_scope6, use_delete_dhcp_scope6,
  use_create_dhcp_reservation6, use_update_dhcp_reservation6, use_delete_dhcp_reservation6,
}
use mantis_dns.Api.Hooks.Zones.{
  use_create_zone, use_update_zone, use_delete_zone, use_create_record, use_update_record,
  use_delete_record,
}
use mantis_dns.Api.Hooks.Monitoring.{
  use_create_siem_syslog_sink, use_update_siem_syslog_sink, use_delete_siem_syslog_sink,
  use_test_siem_syslog_sink, use_register_client, use_delete_client,
}

pub data MutationHook : Type 0 where
  create_user : Json → MutationHook
  update_user : (String × Json) → MutationHook
  delete_user : String → MutationHook
  change_password : Json → MutationHook
  create_tenant : Json → MutationHook
  delete_tenant : String → MutationHook
  create_group : Option String → Json → MutationHook
  set_group_subnet : Option String → (String × Json) → MutationHook
  rename_group : Option String → (String × Json) → MutationHook
  delete_group : Option String → String → MutationHook
  upsert_policy : Option String → Json → MutationHook
  compile_bundle : String → MutationHook
  upsert_block_page_template : Option String → Json → MutationHook
  test_policy : Option String → Text → MutationHook
  create_feed : Json → MutationHook
  update_feed : (String × Json) → MutationHook
  delete_feed : String → MutationHook
  ingest_feed_now : String → MutationHook
  create_upstream_resolver : Json → MutationHook
  update_upstream_resolver : (String × Json) → MutationHook
  delete_upstream_resolver : String → MutationHook
  probe_upstream_resolver : String → MutationHook
  create_upstream_pool : Json → MutationHook
  update_upstream_pool : (String × Json) → MutationHook
  delete_upstream_pool : String → MutationHook
  upsert_pool_member : PoolMemberInput → MutationHook
  remove_pool_member : (String × String) → MutationHook
  create_upstream_route : Option String → Json → MutationHook
  update_upstream_route : Option String → (String × Json) → MutationHook
  delete_upstream_route : Option String → String → MutationHook
  upsert_upstream_tenant_policy : Option String → Json → MutationHook
  create_dhcp_scope : Json → MutationHook
  update_dhcp_scope : (String × Json) → MutationHook
  delete_dhcp_scope : String → MutationHook
  create_dhcp_reservation : Option String → Json → MutationHook
  update_dhcp_reservation : Option String → (String × Json) → MutationHook
  delete_dhcp_reservation : Option String → String → MutationHook
  create_dhcp_scope6 : Json → MutationHook
  update_dhcp_scope6 : (String × Json) → MutationHook
  delete_dhcp_scope6 : String → MutationHook
  create_dhcp_reservation6 : Option String → Json → MutationHook
  update_dhcp_reservation6 : Option String → (String × Json) → MutationHook
  delete_dhcp_reservation6 : Option String → String → MutationHook
  create_zone : Json → MutationHook
  update_zone : (String × Json) → MutationHook
  delete_zone : String → MutationHook
  create_record : String → Json → MutationHook
  update_record : String → (String × Json) → MutationHook
  delete_record : String → String → MutationHook
  create_siem_syslog_sink : Json → MutationHook
  update_siem_syslog_sink : (String × Json) → MutationHook
  delete_siem_syslog_sink : String → MutationHook
  test_siem_syslog_sink : String → MutationHook
  register_client : Option String → (String × Json) → MutationHook
  delete_client : Option String → String → MutationHook

-- The request that a hook's `mutationFn` makes, and what its `onSuccess` does.
unfoldable pub sent : MutationHook → Request
unfolding use_create_user use_update_user use_delete_user use_change_password use_create_tenant
    use_delete_tenant use_create_group use_set_group_subnet use_rename_group use_delete_group
    use_upsert_policy use_compile_bundle use_upsert_block_page_template use_test_policy
    use_create_feed use_update_feed use_delete_feed use_ingest_feed_now use_create_upstream_resolver
    use_update_upstream_resolver use_delete_upstream_resolver use_probe_upstream_resolver
    use_create_upstream_pool use_update_upstream_pool use_delete_upstream_pool
    use_upsert_pool_member use_remove_pool_member use_create_upstream_route
    use_update_upstream_route use_delete_upstream_route use_upsert_upstream_tenant_policy
    use_create_dhcp_scope use_update_dhcp_scope use_delete_dhcp_scope use_create_dhcp_reservation
    use_update_dhcp_reservation use_delete_dhcp_reservation use_create_dhcp_scope6
    use_update_dhcp_scope6 use_delete_dhcp_scope6 use_create_dhcp_reservation6
    use_update_dhcp_reservation6 use_delete_dhcp_reservation6 use_create_zone use_update_zone
    use_delete_zone use_create_record use_update_record use_delete_record
    use_create_siem_syslog_sink use_update_siem_syslog_sink use_delete_siem_syslog_sink
    use_test_siem_syslog_sink use_register_client use_delete_client
sent (create_user x) = use_create_user.mutation_fn x
sent (update_user x) = use_update_user.mutation_fn x
sent (delete_user x) = use_delete_user.mutation_fn x
sent (change_password x) = use_change_password.mutation_fn x
sent (create_tenant x) = use_create_tenant.mutation_fn x
sent (delete_tenant x) = use_delete_tenant.mutation_fn x
sent (create_group t x) = (use_create_group t).mutation_fn x
sent (set_group_subnet t x) = (use_set_group_subnet t).mutation_fn x
sent (rename_group t x) = (use_rename_group t).mutation_fn x
sent (delete_group t x) = (use_delete_group t).mutation_fn x
sent (upsert_policy t x) = (use_upsert_policy t).mutation_fn x
sent (compile_bundle x) = use_compile_bundle.mutation_fn x
sent (upsert_block_page_template t x) = (use_upsert_block_page_template t).mutation_fn x
sent (test_policy t x) = (use_test_policy t).mutation_fn x
sent (create_feed x) = use_create_feed.mutation_fn x
sent (update_feed x) = use_update_feed.mutation_fn x
sent (delete_feed x) = use_delete_feed.mutation_fn x
sent (ingest_feed_now x) = use_ingest_feed_now.mutation_fn x
sent (create_upstream_resolver x) = use_create_upstream_resolver.mutation_fn x
sent (update_upstream_resolver x) = use_update_upstream_resolver.mutation_fn x
sent (delete_upstream_resolver x) = use_delete_upstream_resolver.mutation_fn x
sent (probe_upstream_resolver x) = use_probe_upstream_resolver.mutation_fn x
sent (create_upstream_pool x) = use_create_upstream_pool.mutation_fn x
sent (update_upstream_pool x) = use_update_upstream_pool.mutation_fn x
sent (delete_upstream_pool x) = use_delete_upstream_pool.mutation_fn x
sent (upsert_pool_member x) = use_upsert_pool_member.mutation_fn x
sent (remove_pool_member x) = use_remove_pool_member.mutation_fn x
sent (create_upstream_route t x) = (use_create_upstream_route t).mutation_fn x
sent (update_upstream_route t x) = (use_update_upstream_route t).mutation_fn x
sent (delete_upstream_route t x) = (use_delete_upstream_route t).mutation_fn x
sent (upsert_upstream_tenant_policy t x) = (use_upsert_upstream_tenant_policy t).mutation_fn x
sent (create_dhcp_scope x) = use_create_dhcp_scope.mutation_fn x
sent (update_dhcp_scope x) = use_update_dhcp_scope.mutation_fn x
sent (delete_dhcp_scope x) = use_delete_dhcp_scope.mutation_fn x
sent (create_dhcp_reservation t x) = (use_create_dhcp_reservation t).mutation_fn x
sent (update_dhcp_reservation t x) = (use_update_dhcp_reservation t).mutation_fn x
sent (delete_dhcp_reservation t x) = (use_delete_dhcp_reservation t).mutation_fn x
sent (create_dhcp_scope6 x) = use_create_dhcp_scope6.mutation_fn x
sent (update_dhcp_scope6 x) = use_update_dhcp_scope6.mutation_fn x
sent (delete_dhcp_scope6 x) = use_delete_dhcp_scope6.mutation_fn x
sent (create_dhcp_reservation6 t x) = (use_create_dhcp_reservation6 t).mutation_fn x
sent (update_dhcp_reservation6 t x) = (use_update_dhcp_reservation6 t).mutation_fn x
sent (delete_dhcp_reservation6 t x) = (use_delete_dhcp_reservation6 t).mutation_fn x
sent (create_zone x) = use_create_zone.mutation_fn x
sent (update_zone x) = use_update_zone.mutation_fn x
sent (delete_zone x) = use_delete_zone.mutation_fn x
sent (create_record z x) = (use_create_record z).mutation_fn x
sent (update_record z x) = (use_update_record z).mutation_fn x
sent (delete_record z x) = (use_delete_record z).mutation_fn x
sent (create_siem_syslog_sink x) = use_create_siem_syslog_sink.mutation_fn x
sent (update_siem_syslog_sink x) = use_update_siem_syslog_sink.mutation_fn x
sent (delete_siem_syslog_sink x) = use_delete_siem_syslog_sink.mutation_fn x
sent (test_siem_syslog_sink x) = use_test_siem_syslog_sink.mutation_fn x
sent (register_client t x) = (use_register_client t).mutation_fn x
sent (delete_client t x) = (use_delete_client t).mutation_fn x

unfoldable pub effects : MutationHook → List CacheOp
unfolding use_create_user use_update_user use_delete_user use_change_password use_create_tenant
    use_delete_tenant use_create_group use_set_group_subnet use_rename_group use_delete_group
    use_upsert_policy use_compile_bundle use_upsert_block_page_template use_test_policy
    use_create_feed use_update_feed use_delete_feed use_ingest_feed_now use_create_upstream_resolver
    use_update_upstream_resolver use_delete_upstream_resolver use_probe_upstream_resolver
    use_create_upstream_pool use_update_upstream_pool use_delete_upstream_pool
    use_upsert_pool_member use_remove_pool_member use_create_upstream_route
    use_update_upstream_route use_delete_upstream_route use_upsert_upstream_tenant_policy
    use_create_dhcp_scope use_update_dhcp_scope use_delete_dhcp_scope use_create_dhcp_reservation
    use_update_dhcp_reservation use_delete_dhcp_reservation use_create_dhcp_scope6
    use_update_dhcp_scope6 use_delete_dhcp_scope6 use_create_dhcp_reservation6
    use_update_dhcp_reservation6 use_delete_dhcp_reservation6 use_create_zone use_update_zone
    use_delete_zone use_create_record use_update_record use_delete_record
    use_create_siem_syslog_sink use_update_siem_syslog_sink use_delete_siem_syslog_sink
    use_test_siem_syslog_sink use_register_client use_delete_client
effects (create_user x) = use_create_user.on_success x
effects (update_user x) = use_update_user.on_success x
effects (delete_user x) = use_delete_user.on_success x
effects (change_password x) = use_change_password.on_success x
effects (create_tenant x) = use_create_tenant.on_success x
effects (delete_tenant x) = use_delete_tenant.on_success x
effects (create_group t x) = (use_create_group t).on_success x
effects (set_group_subnet t x) = (use_set_group_subnet t).on_success x
effects (rename_group t x) = (use_rename_group t).on_success x
effects (delete_group t x) = (use_delete_group t).on_success x
effects (upsert_policy t x) = (use_upsert_policy t).on_success x
effects (compile_bundle x) = use_compile_bundle.on_success x
effects (upsert_block_page_template t x) = (use_upsert_block_page_template t).on_success x
effects (test_policy t x) = (use_test_policy t).on_success x
effects (create_feed x) = use_create_feed.on_success x
effects (update_feed x) = use_update_feed.on_success x
effects (delete_feed x) = use_delete_feed.on_success x
effects (ingest_feed_now x) = use_ingest_feed_now.on_success x
effects (create_upstream_resolver x) = use_create_upstream_resolver.on_success x
effects (update_upstream_resolver x) = use_update_upstream_resolver.on_success x
effects (delete_upstream_resolver x) = use_delete_upstream_resolver.on_success x
effects (probe_upstream_resolver x) = use_probe_upstream_resolver.on_success x
effects (create_upstream_pool x) = use_create_upstream_pool.on_success x
effects (update_upstream_pool x) = use_update_upstream_pool.on_success x
effects (delete_upstream_pool x) = use_delete_upstream_pool.on_success x
effects (upsert_pool_member x) = use_upsert_pool_member.on_success x
effects (remove_pool_member x) = use_remove_pool_member.on_success x
effects (create_upstream_route t x) = (use_create_upstream_route t).on_success x
effects (update_upstream_route t x) = (use_update_upstream_route t).on_success x
effects (delete_upstream_route t x) = (use_delete_upstream_route t).on_success x
effects (upsert_upstream_tenant_policy t x) = (use_upsert_upstream_tenant_policy t).on_success x
effects (create_dhcp_scope x) = use_create_dhcp_scope.on_success x
effects (update_dhcp_scope x) = use_update_dhcp_scope.on_success x
effects (delete_dhcp_scope x) = use_delete_dhcp_scope.on_success x
effects (create_dhcp_reservation t x) = (use_create_dhcp_reservation t).on_success x
effects (update_dhcp_reservation t x) = (use_update_dhcp_reservation t).on_success x
effects (delete_dhcp_reservation t x) = (use_delete_dhcp_reservation t).on_success x
effects (create_dhcp_scope6 x) = use_create_dhcp_scope6.on_success x
effects (update_dhcp_scope6 x) = use_update_dhcp_scope6.on_success x
effects (delete_dhcp_scope6 x) = use_delete_dhcp_scope6.on_success x
effects (create_dhcp_reservation6 t x) = (use_create_dhcp_reservation6 t).on_success x
effects (update_dhcp_reservation6 t x) = (use_update_dhcp_reservation6 t).on_success x
effects (delete_dhcp_reservation6 t x) = (use_delete_dhcp_reservation6 t).on_success x
effects (create_zone x) = use_create_zone.on_success x
effects (update_zone x) = use_update_zone.on_success x
effects (delete_zone x) = use_delete_zone.on_success x
effects (create_record z x) = (use_create_record z).on_success x
effects (update_record z x) = (use_update_record z).on_success x
effects (delete_record z x) = (use_delete_record z).on_success x
effects (create_siem_syslog_sink x) = use_create_siem_syslog_sink.on_success x
effects (update_siem_syslog_sink x) = use_update_siem_syslog_sink.on_success x
effects (delete_siem_syslog_sink x) = use_delete_siem_syslog_sink.on_success x
effects (test_siem_syslog_sink x) = use_test_siem_syslog_sink.on_success x
effects (register_client t x) = (use_register_client t).on_success x
effects (delete_client t x) = (use_delete_client t).on_success x
