-- ===== src/Api/Client/Laws.antt =====
-- The exchanges of apps/ui/src/api/client.ts under every data hook: the CSRF token, the report that
-- the session has expired, and the query cache.
use mantis_dns.Base.{
  Bool, true, false, not, ◌&&◌, Option, none, some, List, [], ◌∷◌, ◌≡◌, refl, arith,
}
use mantis_dns.Base.Text.{Text, codes, is_empty}
use mantis_dns.Base.Json.{Json}
use mantis_dns.Base.Platform.{Platform}
use mantis_dns.Api.Request.{
  Method, unwrapped, Request, Decode, is_mutating, post, put, patch, delete,
}
use mantis_dns.Api.Outcome.{Outcome, value, thrown, is_value}
use mantis_dns.Api.Cache.{QueryClient, IsLawful, served}
use mantis_dns.Api.Queries.{QueryHook, query_spec}
use mantis_dns.Api.Mutations.{MutationHook, sent, effects}
use mantis_dns.Api.Coherence.{addresses, invalidates, addresses-invalidates, served-effects}
use mantis_dns.Api.Client.{Window, Exchange, csrf_headers, auth_headers}
use mantis_dns.Api.Client.Cookie.{read_cookie}
use mantis_dns.Api.Client.Cookie.Jar.{
  document_cookie, cookie_of, IsJar, match_cookie-document_cookie,
}
use mantis_dns.Api.Client.Requests.{is_mutating-sent}
use mantis_dns.Api.Client.Run.{Network, after_success, send, run_mutation}

-- The cookie of the session's CSRF token, and the header that echoes it.
abbrev csrf_cookie : Text
csrf_cookie = codes "mantis_csrf"

abbrev pub csrf_header : Text
csrf_header = codes "X-Mantis-CSRF-Token"

abbrev pub sent_header : {A : Type 0} → Text → Exchange A → Option Text
sent_header name x = elim x.sent [ none ↦ none | some hs ↦ cookie_of name hs ]

-- The browser holds a token: one of its cookies, which decodes to a text that is not empty.
abbrev pub HoldsToken : Platform → Window → Text → Type 0
HoldsToken p w token =
    (jar : List (Text × Text)) × (raw_value : Text) × (w.cookie ≡ document_cookie jar)
    × IsJar jar
    × (cookie_of csrf_cookie jar ≡ some raw_value)
    × (p.decode_uri raw_value ≡ some token)
    × (is_empty token ≡ false)

csrf_headers-token :
    (p : Platform) (w : Window) (token : Text)
    → HoldsToken p w token
    → csrf_headers p w ≡ value ((csrf_header, token) ∷ [])
unfolding csrf_headers read_cookie
csrf_headers-token p w token (jar, raw_value, made, valid, found, decoded, full) =
    ground (arith, match_cookie-document_cookie csrf_cookie jar refl valid)

pub auth_headers-token :
    (p : Platform) (w : Window) (token : Text) (m : Method)
    → is_mutating m ≡ true
    → HoldsToken p w token
    → auth_headers p w m ≡ value ((csrf_header, token) ∷ [])
unfolding auth_headers
auth_headers-token p w token m e h = ground (arith, csrf_headers-token p w token h)

send-token :
    (p : Platform) (net : Network) (w : Window) (decode : Decode) (req : Request) (token : Text)
    → is_mutating req.method ≡ true
    → HoldsToken p w token
    → sent_header csrf_header (send p net w decode req) ≡ some token
unfolding send cookie_of
send-token p net w decode req token m h = ground (
  arith,
  auth_headers-token p w token req.method m h,
  auth_headers-token p w token post refl h,
  auth_headers-token p w token put refl h,
  auth_headers-token p w token patch refl h,
  auth_headers-token p w token delete refl h,
)

-- Every mutation hook sends the CSRF token that the browser holds, with either client and whatever
-- the server answers.
pub run_mutation-token :
    (p : Platform) (net : Network) (w : Window) (qc : QueryClient) (m : MutationHook) (c : qc.Cache)
    (token : Text)
    → HoldsToken p w token
    → sent_header csrf_header (run_mutation p net w qc m c).0 ≡ some token
unfolding run_mutation
run_mutation-token p net w qc m c token h =
    send-token p net w unwrapped (sent m) token (is_mutating-sent m) h

served-after_success :
    (qc : QueryClient) (L : IsLawful qc) (m : MutationHook) (q : QueryHook) (c : qc.Cache)
    (o : Outcome (Option Json))
    → served qc (after_success qc (effects m) o c) (query_spec q).query_key
      ≡ (served qc c (query_spec q).query_key && not (is_value o && invalidates m q))
served-after_success qc L m q c (value v) = served-effects qc L m q c
served-after_success qc L m q c (thrown e) = ground arith

-- After a mutation the entries that are still served without a refetch are those that were served
-- before, less, if the mutation has not thrown, those that its `onSuccess` names: for any cache that
-- behaves as the query cache is documented to.
pub run_mutation-served :
    (p : Platform) (net : Network) (w : Window) (qc : QueryClient) (L : IsLawful qc)
    (m : MutationHook) (q : QueryHook) (c : qc.Cache)
    → let (x, c') = run_mutation p net w qc m c in
      served qc c' (query_spec q).query_key
      ≡ (served qc c (query_spec q).query_key && not (is_value x.outcome && invalidates m q))
unfolding run_mutation
run_mutation-served p net w qc L m q c =
    served-after_success qc L m q c (send p net w unwrapped (sent m)).outcome

stale :
    (before ok addressed named : Bool)
    → (addressed ≡ true → named ≡ true)
    → ((before && not (ok && named)) && ok && addressed) ≡ false
stale before false addressed named h = ground arith
stale before true false named h = ground arith
stale before true true named h = rw (h refl) (ground arith)

pub run_mutation-addresses :
    (p : Platform) (net : Network) (w : Window) (qc : QueryClient) (L : IsLawful qc)
    (m : MutationHook) (q : QueryHook) (c : qc.Cache)
    → let (x, c') = run_mutation p net w qc m c in
      ((served qc c' (query_spec q).query_key && is_value x.outcome && addresses m q) ≡ false)
      × ((served qc c' (query_spec q).query_key && not (served qc c (query_spec q).query_key))
          ≡ false)
      × ((served qc c (query_spec q).query_key
            && not (is_value x.outcome)
            && not (served qc c' (query_spec q).query_key))
          ≡ false)
run_mutation-addresses p net w qc L m q c =
    let e = run_mutation-served p net w qc L m q c in
    let x = (run_mutation p net w qc m c).0 in
    rw e (
      stale (served qc c (query_spec q).query_key) (is_value x.outcome) (addresses m q)
          (invalidates m q) (addresses-invalidates m q),
      ground arith,
      ground arith,
    )
