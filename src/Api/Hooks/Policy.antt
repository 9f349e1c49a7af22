-- ===== src/Api/Hooks/Policy.antt =====
-- apps/ui/src/api/hooks.ts: policies, block pages, categories and feeds.
use mantis_dns.Base.{String, Option, some, [], ◌∷◌}
use mantis_dns.Base.Json.{Json, obj, keyed, end, str}
use mantis_dns.Base.Text.{Text}
use mantis_dns.Api.Request.{
  typed, raw, get, post, put, patch, delete, lit, param, request, sending, truthy, word, opt_word,
  unwrapped, null_on_404, raw_json, never, QuerySpec, query, invalidate, Mutation, mutation,
}

unfoldable pub use_policy : Option String → QuerySpec
use_policy group_id =
    record (query (word "policy" ∷ opt_word group_id ∷ [])
      (request typed get (lit "/api/v1/groups/" ∷ param group_id ∷ lit "/policy" ∷ []))
      null_on_404) { enabled = truthy group_id }

unfoldable pub use_upsert_policy : Option String → Mutation Json
use_upsert_policy group_id =
    mutation
      (λ body. sending typed put (lit "/api/v1/groups/" ∷ param group_id ∷ lit "/policy" ∷ []) body)
      (invalidate (word "policy" ∷ opt_word group_id ∷ []) ∷ [])

unfoldable pub use_compile_bundle : Mutation String
use_compile_bundle =
    mutation
      (λ group_id.
        request typed post (lit "/api/v1/groups/" ∷ param (some group_id) ∷ lit "/bundle" ∷ []))
      ([])

unfoldable pub use_block_page_template : Option String → QuerySpec
use_block_page_template group_id =
    record (query (word "block-page-template" ∷ opt_word group_id ∷ [])
      (request typed get (lit "/api/v1/groups/" ∷ param group_id ∷ lit "/block-page-template" ∷ []))
      null_on_404) { enabled = truthy group_id }

unfoldable pub use_upsert_block_page_template : Option String → Mutation Json
use_upsert_block_page_template group_id =
    mutation
      (λ body.
        sending typed put (lit "/api/v1/groups/" ∷ param group_id ∷ lit "/block-page-template" ∷ [])
          body)
      (invalidate (word "block-page-template" ∷ opt_word group_id ∷ []) ∷ [])

unfoldable pub use_top_domains : Option String → QuerySpec
use_top_domains group_id =
    record (query (word "top-domains" ∷ opt_word group_id ∷ [])
      (request typed get (lit "/api/v1/groups/" ∷ param group_id ∷ lit "/top-domains" ∷ []))
      unwrapped) { enabled = truthy group_id }

unfoldable pub use_test_policy : Option String → Mutation Text
use_test_policy group_id =
    mutation
      (λ domain.
        sending raw post (lit "/api/v1/groups/" ∷ param group_id ∷ lit "/policy/test" ∷ [])
          (obj (keyed "domain" (str domain) end)))
      ([])

unfoldable pub use_categories : QuerySpec
use_categories =
    record (query (word "categories" ∷ []) (request raw get (lit "/api/v1/categories" ∷ []))
      raw_json) { stale_time = never }

unfoldable pub use_feeds : QuerySpec
use_feeds = query (word "feeds" ∷ []) (request typed get (lit "/api/v1/feeds" ∷ [])) unwrapped

unfoldable pub use_create_feed : Mutation Json
use_create_feed =
    mutation (λ body. sending typed post (lit "/api/v1/feeds" ∷ []) body)
      (invalidate (word "feeds" ∷ []) ∷ [])

unfoldable pub use_update_feed : Mutation (String × Json)
use_update_feed =
    mutation
      (λ (feed_id, body).
        sending typed patch (lit "/api/v1/feeds/" ∷ param (some feed_id) ∷ []) body)
      (invalidate (word "feeds" ∷ []) ∷ [])

unfoldable pub use_delete_feed : Mutation String
use_delete_feed =
    mutation (λ feed_id. request typed delete (lit "/api/v1/feeds/" ∷ param (some feed_id) ∷ []))
      (invalidate (word "feeds" ∷ []) ∷ [])

unfoldable pub use_ingest_feed_now : Mutation String
use_ingest_feed_now =
    mutation
      (λ feed_id.
        request typed post (lit "/api/v1/feeds/" ∷ param (some feed_id) ∷ lit "/ingest" ∷ []))
      (invalidate (word "feeds" ∷ []) ∷ [])
