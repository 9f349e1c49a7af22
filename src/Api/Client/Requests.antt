-- ===== src/Api/Client/Requests.antt =====
-- The requests of the data hooks of apps/ui/src/api/hooks.ts.
use mantis_dns.Base.{Bool, true, none, ◌≡◌, refl, arith, all}
use mantis_dns.Api.Request.{is_mutating, get, truthy, PathPart, lit, param}
use mantis_dns.Api.Queries.{QueryHook, query_spec, users}
use mantis_dns.Api.Mutations.{MutationHook, sent, create_user}

abbrev pub part_defined : PathPart → Bool
part_defined (lit s) = true
part_defined (param v) = truthy v

-- A query hook is enabled exactly when no part of its path is `undefined` or empty, and it sends a
-- GET with no body.
pub query_spec_request :
    (q : QueryHook)
    → ((query_spec q).enabled ≡ all part_defined (query_spec q).query_fn.path)
      × ((query_spec q).query_fn.method ≡ get)
      × ((query_spec q).query_fn.body ≡ none)
unfolding query_spec
query_spec_request users = (refl, refl, refl)
query_spec_request _ = ground arith

-- No mutation hook sends a GET or a HEAD.
pub is_mutating-sent : (m : MutationHook) → is_mutating (sent m).method ≡ true
unfolding sent
is_mutating-sent (create_user _) = refl
is_mutating-sent _ = refl
