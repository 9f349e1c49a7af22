-- ===== src/Api/Client/Expiry.antt =====
-- Which exchanges of apps/ui/src/api/client.ts report that the session has expired.
use mantis_dns.Base.{
  ap, ℕ, Bool, false, not, ◌&&◌, Option, none, some, List, [], ◌∷◌, ◌++◌, ◌==◌, ◌≡◌, refl, arith,
  ◌∙◌,
}
use mantis_dns.Base.Text.{Text, codes, starts_with}
use mantis_dns.Base.Json.{Json}
use mantis_dns.Base.Platform.{Platform}
use mantis_dns.Api.Request.{
  Method, Request, Decode, unwrapped, is_mutating, typed, raw, get, head, delete,
}
use mantis_dns.Api.Request.{Via, PathPart, QueryValue}
use mantis_dns.Base.{String}
use mantis_dns.Api.Outcome.{value}
use mantis_dns.Api.Cache.{QueryClient}
use mantis_dns.Api.Queries.{QueryHook, query_spec}
use mantis_dns.Api.Mutations.{MutationHook, sent}
use mantis_dns.Api.Client.Typed.{ApiResult, returned, typed_request}
use mantis_dns.Api.Client.{
  Wire, Response, answered, Window, content_type, body_text, raw_request, auth_headers,
  handle_unauthorized,
}
use mantis_dns.Api.Client.Requests.{query_spec_request, is_mutating-sent}
use mantis_dns.Api.Client.Laws.{csrf_header, HoldsToken, auth_headers-token}
use mantis_dns.Api.Client.Run.{or_null, Network, send, run_query, run_mutation}

-- Every answer that the network gives has this status.
abbrev pub AnswersWith : Network → ℕ → Type 0
AnswersWith net status =
    ((wire : Wire) → (r : Response) × (net.fetch wire ≡ answered r) × (r.status ≡ status))
    × ((req : Request) (hs : List (Text × Text))
        → (r : ApiResult) × (net.exchange req hs ≡ returned r) × (r.status ≡ status))

-- The expected report: a 401 on a page that is not below `/login`.
abbrev pub expires : Window → ℕ → Bool
expires w status = status == 401 && not (starts_with w.pathname (codes "/login"))

module _ (p : Platform) (net : Network) (w : Window) (status : ℕ)
    (answers : AnswersWith net status) where
  raw_request-answered :
      (m : Method) (url : Text) (body : Option Json) (hs : List (Text × Text))
      → auth_headers p w m ≡ value hs
      → ((raw_request p net.fetch w m url body).sent ≡ some (content_type p body ++ hs))
        × ((raw_request p net.fetch w m url body).notified ≡ expires w status)
  unfolding raw_request handle_unauthorized
  raw_request-answered m url body hs e =
      let (r, got, st) = answers.0 (record {
        method = m;
        url = url;
        headers = content_type p body ++ hs;
        body = body_text p body;
      }) in
      ground arith

  typed_request-answered :
      (req : Request) (hs : List (Text × Text))
      → auth_headers p w req.method ≡ value hs
      → ((typed_request p net.exchange w req).sent ≡ some hs)
        × ((typed_request p net.exchange w req).notified ≡ expires w status)
  unfolding typed_request handle_unauthorized
  typed_request-answered req hs e = let (r, got, st) = answers.1 req hs in ground arith

  send_parts-answered :
      (decode : Decode) (via : Via) (m : Method) (path : List PathPart)
      (query : List (String × QueryValue)) (body : Option Json) (hs : List (Text × Text))
      → ((k : Method) → is_mutating k ≡ is_mutating m → auth_headers p w k ≡ value hs)
      → (send p net w decode
          (record { via = via; method = m; path = path; query = query; body = body })).notified
        ≡ expires w status
  unfolding send
  send_parts-answered decode typed m path query body hs e =
      (typed_request-answered _ hs (e m refl)).1
  send_parts-answered decode raw get path query body hs e =
      (raw_request-answered get _ none hs (e get refl)).1
  send_parts-answered decode raw head path query body hs e =
      (raw_request-answered get _ none hs (e get refl)).1
  send_parts-answered decode raw delete path query body hs e =
      (raw_request-answered delete _ none hs (e delete refl)).1
  send_parts-answered decode raw m path query body hs e =
      (raw_request-answered m _ (some (or_null body)) hs (e m refl)).1

  send-answered :
      (decode : Decode) (req : Request) (hs : List (Text × Text))
      → ((m : Method) → is_mutating m ≡ is_mutating req.method → auth_headers p w m ≡ value hs)
      → (send p net w decode req).notified ≡ expires w status
  send-answered decode req hs e =
      send_parts-answered decode req.via req.method req.path req.query req.body hs e

  reading-headers : (m : Method) → is_mutating m ≡ false → auth_headers p w m ≡ value []
  unfolding auth_headers
  reading-headers m e = ground arith

  -- Where every answer of the network has one status, every query hook reports the session as expired exactly when the answer is a 401 and the page is
  -- not below `/login`.
  pub run_query-notified :
      (q : QueryHook) → (run_query p net w (query_spec q)).notified ≡ expires w status
  unfolding run_query
  run_query-notified q =
      send-answered (query_spec q).decode (query_spec q).query_fn []
        (λ m same. reading-headers m (same ∙ ap is_mutating (query_spec_request q).1))

  -- Where every answer of the network has one status, every mutation hook of a browser that holds a CSRF
  -- token reports the session as expired exactly
  -- when the answer is a 401 and the page is not below `/login`.
  pub run_mutation-notified :
      (qc : QueryClient) (m : MutationHook) (c : qc.Cache) (token : Text)
      → HoldsToken p w token
      → (run_mutation p net w qc m c).0.notified ≡ expires w status
  unfolding run_mutation
  run_mutation-notified qc m c token h =
      send-answered unwrapped (sent m) ((csrf_header, token) ∷ [])
        (λ k same. auth_headers-token p w token k (same ∙ is_mutating-sent m) h)
