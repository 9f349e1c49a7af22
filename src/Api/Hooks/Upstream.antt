-- ===== src/Api/Hooks/Upstream.antt =====
-- apps/ui/src/api/hooks.ts: upstream resolvers, pools, routes and the tenant's policy.
use mantis_dns.Base.{ℕ, String, Option, some, [], ◌∷◌}
use mantis_dns.Base.Json.{Json, obj, keyed, end, str, num as json_num}
use mantis_dns.Base.Text.{codes}
use mantis_dns.Api.Request.{
  raw, get, post, put, patch, delete, lit, param, request, sending, truthy, word, opt_word,
  raw_json, QuerySpec, query, invalidate, Mutation, mutation,
}

unfoldable pub use_upstream_resolvers : QuerySpec
use_upstream_resolvers =
    query (word "upstream-resolvers" ∷ []) (request raw get (lit "/api/v1/upstream/resolvers" ∷ []))
      raw_json

unfoldable pub use_create_upstream_resolver : Mutation Json
use_create_upstream_resolver =
    mutation (λ body. sending raw post (lit "/api/v1/upstream/resolvers" ∷ []) body)
      (invalidate (word "upstream-resolvers" ∷ []) ∷ [])

unfoldable pub use_update_upstream_resolver : Mutation (String × Json)
use_update_upstream_resolver =
    mutation
      (λ (id, body).
        sending raw patch (lit "/api/v1/upstream/resolvers/" ∷ param (some id) ∷ []) body)
      (invalidate (word "upstream-resolvers" ∷ []) ∷ [])

unfoldable pub use_delete_upstream_resolver : Mutation String
use_delete_upstream_resolver =
    mutation (λ id. request raw delete (lit "/api/v1/upstream/resolvers/" ∷ param (some id) ∷ []))
      (invalidate (word "upstream-resolvers" ∷ []) ∷ [])

unfoldable pub use_probe_upstream_resolver : Mutation String
use_probe_upstream_resolver =
    mutation
      (λ id.
        sending raw post (lit "/api/v1/upstream/resolvers/" ∷ param (some id) ∷ lit "/probe" ∷ [])
          (obj end))
      ([])

unfoldable pub use_upstream_pools : QuerySpec
use_upstream_pools =
    query (word "upstream-pools" ∷ []) (request raw get (lit "/api/v1/upstream/pools" ∷ []))
      raw_json

unfoldable pub use_create_upstream_pool : Mutation Json
use_create_upstream_pool =
    mutation (λ body. sending raw post (lit "/api/v1/upstream/pools" ∷ []) body)
      (invalidate (word "upstream-pools" ∷ []) ∷ [])

unfoldable pub use_update_upstream_pool : Mutation (String × Json)
use_update_upstream_pool =
    mutation
      (λ (id, body). sending raw patch (lit "/api/v1/upstream/pools/" ∷ param (some id) ∷ []) body)
      (invalidate (word "upstream-pools" ∷ []) ∷ [])

unfoldable pub use_delete_upstream_pool : Mutation String
use_delete_upstream_pool =
    mutation (λ id. request raw delete (lit "/api/v1/upstream/pools/" ∷ param (some id) ∷ []))
      (invalidate (word "upstream-pools" ∷ []) ∷ [])

pub record PoolMemberInput : Type 0 where
  pub pool_id : String
  pub resolver_id : String
  pub weight : ℕ
  pub priority : ℕ

unfoldable pub use_upsert_pool_member : Mutation PoolMemberInput
use_upsert_pool_member =
    mutation
      (λ x.
        sending raw put
          (lit "/api/v1/upstream/pools/"
            ∷ param (some x.pool_id)
            ∷ lit "/members/"
            ∷ param (some x.resolver_id)
            ∷ [])
          (obj (
            keyed "resolver_id" (str (codes x.resolver_id))
              (keyed "weight" (json_num x.weight) (keyed "priority" (json_num x.priority) end)))))
      (invalidate (word "upstream-pools" ∷ []) ∷ [])

unfoldable pub use_remove_pool_member : Mutation (String × String)
use_remove_pool_member =
    mutation
      (λ (pool_id, resolver_id). request raw delete (
        lit "/api/v1/upstream/pools/"
        ∷ param (some pool_id)
        ∷ lit "/members/"
        ∷ param (some resolver_id)
        ∷ []))
      (invalidate (word "upstream-pools" ∷ []) ∷ [])

unfoldable pub use_upstream_routes : Option String → QuerySpec
use_upstream_routes tenant_id =
    record (query (word "upstream-routes" ∷ opt_word tenant_id ∷ [])
      (request raw get (lit "/api/v1/tenants/" ∷ param tenant_id ∷ lit "/upstream/routes" ∷ []))
      raw_json) { enabled = truthy tenant_id }

unfoldable pub use_create_upstream_route : Option String → Mutation Json
use_create_upstream_route tenant_id =
    mutation
      (λ body.
        sending raw post (lit "/api/v1/tenants/" ∷ param tenant_id ∷ lit "/upstream/routes" ∷ [])
          body)
      (invalidate (word "upstream-routes" ∷ opt_word tenant_id ∷ []) ∷ [])

unfoldable pub use_update_upstream_route : Option String → Mutation (String × Json)
use_update_upstream_route tenant_id =
    mutation
      (λ (id, body).
        sending raw patch
          (lit "/api/v1/tenants/"
            ∷ param tenant_id
            ∷ lit "/upstream/routes/"
            ∷ param (some id)
            ∷ [])
          body)
      (invalidate (word "upstream-routes" ∷ opt_word tenant_id ∷ []) ∷ [])

unfoldable pub use_delete_upstream_route : Option String → Mutation String
use_delete_upstream_route tenant_id =
    mutation
      (λ id.
        request raw delete (
          lit "/api/v1/tenants/"
          ∷ param tenant_id
          ∷ lit "/upstream/routes/"
          ∷ param (some id)
          ∷ []))
      (invalidate (word "upstream-routes" ∷ opt_word tenant_id ∷ []) ∷ [])

unfoldable pub use_upstream_tenant_policy : Option String → QuerySpec
use_upstream_tenant_policy tenant_id =
    record (query (word "upstream-policy" ∷ opt_word tenant_id ∷ [])
      (request raw get (lit "/api/v1/tenants/" ∷ param tenant_id ∷ lit "/upstream/policy" ∷ []))
      raw_json) { enabled = truthy tenant_id }

unfoldable pub use_upsert_upstream_tenant_policy : Option String → Mutation Json
use_upsert_upstream_tenant_policy tenant_id =
    mutation
      (λ body.
        sending raw put (lit "/api/v1/tenants/" ∷ param tenant_id ∷ lit "/upstream/policy" ∷ [])
          body)
      (invalidate (word "upstream-policy" ∷ opt_word tenant_id ∷ []) ∷ [])
