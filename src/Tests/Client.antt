-- ===== src/Tests/Client.antt =====
-- The data hooks and the client at concrete inputs.
use mantis_dns.Base.{Bool, List, false, none, some, [], ◌∷◌, ◌≡◌, refl, all}
use mantis_dns.Base.Text.{codes}
use mantis_dns.Base.Json.{null}
use mantis_dns.Api.Request.{QueryKey, get, word}
use mantis_dns.Api.Cache.Memory.{memory_client}
use mantis_dns.Api.Queries.{query_spec, zones, records}
use mantis_dns.Api.Mutations.{create_zone}
use mantis_dns.Api.Client.Cookie.{match_cookie}
use mantis_dns.Api.Client.Cookie.Jar.{document_cookie, cookie_of, match_cookie-document_cookie}
use mantis_dns.Api.Client.Requests.{query_spec_request, part_defined}
use mantis_dns.Api.Client.Run.{run_query, run_mutation}
use mantis_dns.Api.Client.Laws.{HoldsToken, csrf_header, sent_header, run_mutation-token}
use mantis_dns.Api.Client.Expiry.{AnswersWith, expires, run_query-notified}
use mantis_dns.Tests.Fixtures.{platform, jar, page, refusing}

page-HoldsToken : HoldsToken platform page (codes "t0k")
unfolding cookie_of
page-HoldsToken = (
  jar,
  codes "t0k",
  refl,
  (refl, refl, refl, (refl, refl, refl, (refl, refl, refl, tt))),
  refl,
  refl,
  refl,
)

refusing-AnswersWith : AnswersWith refusing 401
refusing-AnswersWith = (λ wire. (_, refl, refl), λ req hs. (_, refl, refl))

abbrev before_zone : List (QueryKey × Bool)
before_zone = (word "dns-zones" ∷ [], false) ∷ []

run_mutation-token_example :
    sent_header csrf_header
      (run_mutation platform refusing page memory_client (create_zone null) []).0
    ≡ some (codes "t0k")
run_mutation-token_example =
    run_mutation-token platform refusing page memory_client (create_zone null) [] (codes "t0k")
      page-HoldsToken

run_query-notified_example :
    (run_query platform refusing page (query_spec zones)).notified ≡ expires page 401
run_query-notified_example =
    run_query-notified platform refusing page 401 refusing-AnswersWith zones

query_spec_request_example :
    ((query_spec (records "z1")).enabled
      ≡ all part_defined (query_spec (records "z1")).query_fn.path)
    × ((query_spec (records "z1")).query_fn.method ≡ get)
    × ((query_spec (records "z1")).query_fn.body ≡ none)
query_spec_request_example = query_spec_request (records "z1")

match_cookie-document_cookie_example :
    match_cookie (codes "mantis_csrf") (document_cookie jar) ≡ cookie_of (codes "mantis_csrf") jar
match_cookie-document_cookie_example =
    match_cookie-document_cookie (codes "mantis_csrf") jar refl
      (refl, refl, refl, (refl, refl, refl, (refl, refl, refl, tt)))
