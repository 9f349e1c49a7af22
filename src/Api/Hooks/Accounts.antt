-- ===== src/Api/Hooks/Accounts.antt =====
-- apps/ui/src/api/hooks.ts: users, passwords, tenants and groups.
use mantis_dns.Base.{String, Option, some, [], ◌∷◌}
use mantis_dns.Base.Json.{Json}
use mantis_dns.Api.Request.{
  typed, get, post, put, patch, delete, lit, param, request, sending, truthy, word, opt_word,
  unwrapped, QuerySpec, query, invalidate, Mutation, mutation,
}

unfoldable pub use_users : QuerySpec
use_users = query (word "users" ∷ []) (request typed get (lit "/api/v1/users" ∷ [])) unwrapped

unfoldable pub use_create_user : Mutation Json
use_create_user =
    mutation (λ body. sending typed post (lit "/api/v1/users" ∷ []) body)
      (invalidate (word "users" ∷ []) ∷ [])

unfoldable pub use_update_user : Mutation (String × Json)
use_update_user =
    mutation
      (λ (user_id, body).
        sending typed patch (lit "/api/v1/users/" ∷ param (some user_id) ∷ []) body)
      (invalidate (word "users" ∷ []) ∷ [])

unfoldable pub use_delete_user : Mutation String
use_delete_user =
    mutation (λ user_id. request typed delete (lit "/api/v1/users/" ∷ param (some user_id) ∷ []))
      (invalidate (word "users" ∷ []) ∷ [])

unfoldable pub use_change_password : Mutation Json
use_change_password =
    mutation (λ body. sending typed post (lit "/api/v1/auth/change-password" ∷ []) body) ([])

unfoldable pub use_tenants : QuerySpec
use_tenants = query (word "tenants" ∷ []) (request typed get (lit "/api/v1/tenants" ∷ [])) unwrapped

unfoldable pub use_create_tenant : Mutation Json
use_create_tenant =
    mutation (λ body. sending typed post (lit "/api/v1/tenants" ∷ []) body)
      (invalidate (word "tenants" ∷ []) ∷ [])

unfoldable pub use_delete_tenant : Mutation String
use_delete_tenant =
    mutation
      (λ tenant_id. request typed delete (lit "/api/v1/tenants/" ∷ param (some tenant_id) ∷ []))
      (invalidate (word "tenants" ∷ []) ∷ [])

unfoldable pub use_groups : Option String → QuerySpec
use_groups tenant_id =
    record (query (word "groups" ∷ opt_word tenant_id ∷ [])
      (request typed get (lit "/api/v1/tenants/" ∷ param tenant_id ∷ lit "/groups" ∷ []))
      unwrapped) { enabled = truthy tenant_id }

unfoldable pub use_create_group : Option String → Mutation Json
use_create_group tenant_id =
    mutation
      (λ body.
        sending typed post (lit "/api/v1/tenants/" ∷ param tenant_id ∷ lit "/groups" ∷ []) body)
      (invalidate (word "groups" ∷ opt_word tenant_id ∷ []) ∷ [])

unfoldable pub use_set_group_subnet : Option String → Mutation (String × Json)
use_set_group_subnet tenant_id =
    mutation
      (λ (group_id, body).
        sending typed put (lit "/api/v1/groups/" ∷ param (some group_id) ∷ lit "/subnet" ∷ []) body)
      (invalidate (word "groups" ∷ opt_word tenant_id ∷ []) ∷ [])

unfoldable pub use_rename_group : Option String → Mutation (String × Json)
use_rename_group tenant_id =
    mutation
      (λ (group_id, body).
        sending typed put (lit "/api/v1/groups/" ∷ param (some group_id) ∷ []) body)
      (invalidate (word "groups" ∷ opt_word tenant_id ∷ []) ∷ [])

unfoldable pub use_delete_group : Option String → Mutation String
use_delete_group tenant_id =
    mutation (λ group_id. request typed delete (lit "/api/v1/groups/" ∷ param (some group_id) ∷ []))
      (invalidate (word "groups" ∷ opt_word tenant_id ∷ []) ∷ [])
