-- ===== src/Api/Hooks/Dhcp.antt =====
-- apps/ui/src/api/hooks.ts: DHCPv4 scopes, reservations and leases.
use mantis_dns.Base.{String, Option, some, [], ◌∷◌}
use mantis_dns.Base.Json.{Json}
use mantis_dns.Api.Request.{
  raw, get, post, patch, delete, lit, param, request, sending, truthy, word, opt_word, raw_json,
  after_ms, QuerySpec, query, invalidate, Mutation, mutation, filter_by,
}

unfoldable pub use_dhcp_scopes : Option String → QuerySpec
use_dhcp_scopes tenant_id =
    query (word "dhcp-scopes" ∷ opt_word tenant_id ∷ [])
      (record (request raw get (lit "/api/v1/dhcp/scopes" ∷ [])) {
        query = filter_by "tenant_id" tenant_id;
      })
      raw_json

unfoldable pub use_create_dhcp_scope : Mutation Json
use_create_dhcp_scope =
    mutation (λ body. sending raw post (lit "/api/v1/dhcp/scopes" ∷ []) body)
      (invalidate (word "dhcp-scopes" ∷ []) ∷ [])

unfoldable pub use_update_dhcp_scope : Mutation (String × Json)
use_update_dhcp_scope =
    mutation
      (λ (id, body). sending raw patch (lit "/api/v1/dhcp/scopes/" ∷ param (some id) ∷ []) body)
      (invalidate (word "dhcp-scopes" ∷ []) ∷ [])

unfoldable pub use_delete_dhcp_scope : Mutation String
use_delete_dhcp_scope =
    mutation (λ id. request raw delete (lit "/api/v1/dhcp/scopes/" ∷ param (some id) ∷ []))
      (invalidate (word "dhcp-scopes" ∷ []) ∷ [])

unfoldable pub use_dhcp_reservations : Option String → QuerySpec
use_dhcp_reservations scope_id =
    record (query (word "dhcp-reservations" ∷ opt_word scope_id ∷ [])
      (request raw get (lit "/api/v1/dhcp/scopes/" ∷ param scope_id ∷ lit "/reservations" ∷ []))
      raw_json) { enabled = truthy scope_id }

unfoldable pub use_create_dhcp_reservation : Option String → Mutation Json
use_create_dhcp_reservation scope_id =
    mutation
      (λ body.
        sending raw post (lit "/api/v1/dhcp/scopes/" ∷ param scope_id ∷ lit "/reservations" ∷ [])
          body)
      (invalidate (word "dhcp-reservations" ∷ opt_word scope_id ∷ []) ∷ [])

unfoldable pub use_update_dhcp_reservation : Option String → Mutation (String × Json)
use_update_dhcp_reservation scope_id =
    mutation
      (λ (id, body).
        sending raw patch
          (lit "/api/v1/dhcp/scopes/"
            ∷ param scope_id
            ∷ lit "/reservations/"
            ∷ param (some id)
            ∷ [])
          body)
      (invalidate (word "dhcp-reservations" ∷ opt_word scope_id ∷ []) ∷ [])

unfoldable pub use_delete_dhcp_reservation : Option String → Mutation String
use_delete_dhcp_reservation scope_id =
    mutation
      (λ id.
        request raw delete (
          lit "/api/v1/dhcp/scopes/"
          ∷ param scope_id
          ∷ lit "/reservations/"
          ∷ param (some id)
          ∷ []))
      (invalidate (word "dhcp-reservations" ∷ opt_word scope_id ∷ []) ∷ [])

unfoldable pub use_dhcp_leases : Option String → QuerySpec
use_dhcp_leases scope_id =
    record (query (word "dhcp-leases" ∷ opt_word scope_id ∷ [])
      (record (request raw get (lit "/api/v1/dhcp/leases" ∷ [])) {
        query = filter_by "scope_id" scope_id;
      })
      raw_json) { refetch_interval = some 30000 }

unfoldable pub use_dhcp_stats : QuerySpec
use_dhcp_stats =
    record (query (word "dhcp-stats" ∷ []) (request raw get (lit "/api/v1/dhcp/stats" ∷ []))
      raw_json) { refetch_interval = some 60000 }

unfoldable pub use_dhcp_interfaces : QuerySpec
use_dhcp_interfaces =
    record (query (word "dhcp-interfaces" ∷ [])
      (request raw get (lit "/api/v1/dhcp/interfaces" ∷ [])) raw_json) {
        stale_time = after_ms 60000;
      }

unfoldable pub use_dhcp_health : QuerySpec
use_dhcp_health =
    record (query (word "dhcp-health" ∷ []) (request raw get (lit "/api/v1/dhcp/health" ∷ []))
      raw_json) { refetch_interval = some 15000 }
