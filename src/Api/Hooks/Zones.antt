-- ===== src/Api/Hooks/Zones.antt =====
-- apps/ui/src/api/hooks.ts: DNS zones and their records.
use mantis_dns.Base.{String, some, [], ◌∷◌}
use mantis_dns.Base.Json.{Json}
use mantis_dns.Api.Request.{
  typed, get, post, patch, delete, lit, param, request, sending, is_nonempty, word, unwrapped,
  QuerySpec, query, invalidate, remove, Mutation, mutation,
}

unfoldable pub use_zones : QuerySpec
use_zones =
    query (word "dns-zones" ∷ []) (request typed get (lit "/api/v1/dns-zones" ∷ [])) unwrapped

unfoldable pub use_zone : String → QuerySpec
use_zone zone_id =
    record (query (word "dns-zones" ∷ word zone_id ∷ [])
      (request typed get (lit "/api/v1/dns-zones/" ∷ param (some zone_id) ∷ [])) unwrapped) {
        enabled = is_nonempty zone_id;
      }

unfoldable pub use_create_zone : Mutation Json
use_create_zone =
    mutation (λ body. sending typed post (lit "/api/v1/dns-zones" ∷ []) body)
      (invalidate (word "dns-zones" ∷ []) ∷ [])

unfoldable pub use_update_zone : Mutation (String × Json)
use_update_zone = record {
  mutation_fn = λ (zone_id, body).
      sending typed patch (lit "/api/v1/dns-zones/" ∷ param (some zone_id) ∷ []) body;
  on_success = λ (zone_id, _).
      invalidate (word "dns-zones" ∷ []) ∷ invalidate (word "dns-zones" ∷ word zone_id ∷ []) ∷ [];
}

unfoldable pub use_delete_zone : Mutation String
use_delete_zone = record {
  mutation_fn =
      λ zone_id. request typed delete (lit "/api/v1/dns-zones/" ∷ param (some zone_id) ∷ []);
  on_success = λ zone_id.
      invalidate (word "dns-zones" ∷ []) ∷ remove (word "dns-records" ∷ word zone_id ∷ []) ∷ [];
}

unfoldable pub use_records : String → QuerySpec
use_records zone_id =
    record (query (word "dns-records" ∷ word zone_id ∷ [])
      (request typed get (lit "/api/v1/dns-zones/" ∷ param (some zone_id) ∷ lit "/records" ∷ []))
      unwrapped) { enabled = is_nonempty zone_id }

unfoldable pub use_create_record : String → Mutation Json
use_create_record zone_id =
    mutation
      (λ body.
        sending typed post (lit "/api/v1/dns-zones/" ∷ param (some zone_id) ∷ lit "/records" ∷ [])
          body)
      (invalidate (word "dns-records" ∷ word zone_id ∷ [])
        ∷ invalidate (word "dns-zones" ∷ [])
        ∷ invalidate (word "dns-zones" ∷ word zone_id ∷ [])
        ∷ [])

unfoldable pub use_update_record : String → Mutation (String × Json)
use_update_record zone_id =
    mutation
      (λ (record_id, body).
        sending typed patch
          (lit "/api/v1/dns-zones/"
            ∷ param (some zone_id)
            ∷ lit "/records/"
            ∷ param (some record_id)
            ∷ [])
          body)
      (invalidate (word "dns-records" ∷ word zone_id ∷ []) ∷ [])

unfoldable pub use_delete_record : String → Mutation String
use_delete_record zone_id =
    mutation
      (λ record_id. request typed delete (
        lit "/api/v1/dns-zones/"
        ∷ param (some zone_id)
        ∷ lit "/records/"
        ∷ param (some record_id)
        ∷ []))
      (invalidate (word "dns-records" ∷ word zone_id ∷ [])
        ∷ invalidate (word "dns-zones" ∷ [])
        ∷ invalidate (word "dns-zones" ∷ word zone_id ∷ [])
        ∷ [])
