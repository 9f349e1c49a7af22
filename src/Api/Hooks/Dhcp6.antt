-- ===== src/Api/Hooks/Dhcp6.antt =====
-- apps/ui/src/api/hooks.ts: DHCPv6 scopes, reservations and leases.
use mantis_dns.Base.{String, Option, some, [], ◌∷◌}
use mantis_dns.Base.Json.{Json}
use mantis_dns.Api.Request.{
  raw, get, post, patch, delete, lit, param, request, sending, truthy, word, opt_word, raw_json,
  QuerySpec, query, invalidate, Mutation, mutation, filter_by,
}

unfoldable pub use_dhcp_scopes6 : Option String → QuerySpec
use_dhcp_scopes6 tenant_id =
    query (word "dhcp6-scopes" ∷ opt_word tenant_id ∷ [])
      (record (request raw get (lit "/api/v1/dhcp6/scopes" ∷ [])) {
        query = filter_by "tenant_id" tenant_id;
      })
      raw_json

unfoldable pub use_create_dhcp_scope6 : Mutation Json
use_create_dhcp_scope6 =
    mutation (λ body. sending raw post (lit "/api/v1/dhcp6/scopes" ∷ []) body)
      (invalidate (word "dhcp6-scopes" ∷ []) ∷ [])

unfoldable pub use_update_dhcp_scope6 : Mutation (String × Json)
use_update_dhcp_scope6 =
    mutation
      (λ (id, body). sending raw patch (lit "/api/v1/dhcp6/scopes/" ∷ param (some id) ∷ []) body)
      (invalidate (word "dhcp6-scopes" ∷ []) ∷ [])

unfoldable pub use_delete_dhcp_scope6 : Mutation String
use_delete_dhcp_scope6 =
    mutation (λ id. request raw delete (lit "/api/v1/dhcp6/scopes/" ∷ param (some id) ∷ []))
      (invalidate (word "dhcp6-scopes" ∷ []) ∷ [])

unfoldable pub use_dhcp_reservations6 : Option String → QuerySpec
use_dhcp_reservations6 scope_id =
    record (query (word "dhcp6-reservations" ∷ opt_word scope_id ∷ [])
      (request raw get (lit "/api/v1/dhcp6/scopes/" ∷ param scope_id ∷ lit "/reservations" ∷ []))
      raw_json) { enabled = truthy scope_id }

unfoldable pub use_create_dhcp_reservation6 : Option String → Mutation Json
use_create_dhcp_reservation6 scope_id =
    mutation
      (λ body.
        sending raw post (lit "/api/v1/dhcp6/scopes/" ∷ param scope_id ∷ lit "/reservations" ∷ [])
          body)
      (invalidate (word "dhcp6-reservations" ∷ opt_word scope_id ∷ []) ∷ [])

unfoldable pub use_update_dhcp_reservation6 : Option String → Mutation (String × Json)
use_update_dhcp_reservation6 scope_id =
    mutation
      (λ (id, body).
        sending raw patch
          (lit "/api/v1/dhcp6/scopes/"
            ∷ param scope_id
            ∷ lit "/reservations/"
            ∷ param (some id)
            ∷ [])
          body)
      (invalidate (word "dhcp6-reservations" ∷ opt_word scope_id ∷ []) ∷ [])

unfoldable pub use_delete_dhcp_reservation6 : Option String → Mutation String
use_delete_dhcp_reservation6 scope_id =
    mutation
      (λ id. request raw delete (
        lit "/api/v1/dhcp6/scopes/" ∷ param scope_id ∷ lit "/reservations/" ∷ param (some id) ∷ []))
      (invalidate (word "dhcp6-reservations" ∷ opt_word scope_id ∷ []) ∷ [])

unfoldable pub use_dhcp_leases6 : Option String → QuerySpec
use_dhcp_leases6 scope_id =
    record (query (word "dhcp6-leases" ∷ opt_word scope_id ∷ [])
      (record (request raw get (lit "/api/v1/dhcp6/leases" ∷ [])) {
        query = filter_by "scope_id" scope_id;
      })
      raw_json) { refetch_interval = some 30000 }
