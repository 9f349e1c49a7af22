-- ===== src/Api/Client.antt =====
-- apps/ui/src/api/client.ts: the requests to the control plane. The browser's functions are those of
-- `Platform`; `fetch` and openapi-fetch, which is not part of the repository, are arguments. Beside
-- its result every exchange tells what was put on the wire and whether the session was reported as
-- expired.
pub mod BaseUrl
pub mod Cookie
pub mod Typed
pub mod Run
pub mod Requests
pub mod Laws
pub mod Expiry
pub mod Failures
pub mod Settled
use mantis_dns.Base.{
  ℕ, String, Bool, true, false, ◌&&◌, not, Option, none, some, List, [], ◌∷◌, ◌++◌, map,
  if◌then◌else◌, ◌==◌, leb,
}
use mantis_dns.Base.Text.{Text, codes, text_eq, is_empty, starts_with, show}
use mantis_dns.Base.Json.{Json}
use mantis_dns.Base.Platform.{Platform}
use mantis_dns.Api.Request.{
  Method, get, head, post, put, patch, delete, is_mutating, PathPart, lit, param, QueryValue, text,
  num, flag, undefined, Via, typed, raw, Request,
}
use mantis_dns.Api.Errors.{to_text}
use mantis_dns.Api.Outcome.{Outcome, value, thrown, ◌>>=◌}
use Cookie.{read_cookie}
use BaseUrl.{api_url}

-- What the functions read from `window` and `document`, and the `VITE_API_URL` of the build.
pub record Window : Type 0 where
  pub origin : Option Text
  pub pathname : Text
  pub cookie : Text
  pub vite_api_url : Option Text

-- A body that arrives, or the message of the error that stops the reading.
pub data Body : Type 0 where
  complete : Text → Body
  broken : Text → Body

pub record Response : Type 0 where
  pub status : ℕ
  pub status_text : Text
  pub body : Body

-- A `fetch` that is rejected has the message of its `TypeError`.
pub data Fetched : Type 0 where
  answered : Response → Fetched
  rejected : Text → Fetched

pub record Wire : Type 0 where
  pub method : Method
  pub url : Text
  pub headers : List (Text × Text)
  pub body : Option Text

-- `response.ok`.
abbrev pub is_ok : ℕ → Bool
is_ok s = leb 200 s && leb s 299

-- `` `${status}: ${text}` ``.
abbrev pub http_error : ℕ → Text → Text
http_error status t = show status ++ codes ": " ++ t

-- Whether `handleUnauthorized` calls `notifySessionExpired`.
unfoldable pub handle_unauthorized : Window → ℕ → Bool
handle_unauthorized w status = status == 401 && not (starts_with w.pathname (codes "/login"))

pub record Exchange (A : Type 0) : Type 0 where
  -- The headers that went with the request; `none`: they could not be made and nothing was sent.
  pub sent : Option (List (Text × Text))
  pub notified : Bool
  pub outcome : Outcome A

-- `String(v)` of a search parameter, and `undefined` ones left out.
abbrev defined_params : List (String × QueryValue) → List (Text × Text)
defined_params [] = []
defined_params ((k, text s) ∷ ps) = (codes k, codes s) ∷ defined_params ps
defined_params ((k, num n) ∷ ps) = (codes k, show n) ∷ defined_params ps
defined_params ((k, flag true) ∷ ps) = (codes k, codes "true") ∷ defined_params ps
defined_params ((k, flag false) ∷ ps) = (codes k, codes "false") ∷ defined_params ps
defined_params ((k, undefined) ∷ ps) = defined_params ps

module _ (p : Platform) where
  -- `csrf ? { "X-Mantis-CSRF-Token": csrf } : {}`.
  abbrev token_header : Option Text → List (Text × Text)
  token_header none = []
  token_header (some csrf) = if is_empty csrf then [] else (codes "X-Mantis-CSRF-Token", csrf) ∷ []

  unfoldable pub csrf_headers : Window → Outcome (List (Text × Text))
  csrf_headers w = do csrf ← read_cookie p (codes "mantis_csrf") w.cookie; value (token_header csrf)

  -- The headers of a mutating request, and none for the others.
  unfoldable pub auth_headers : Window → Method → Outcome (List (Text × Text))
  unfolding csrf_headers
  auth_headers w m = elim (is_mutating m) [ true ↦ csrf_headers w | false ↦ value [] ]

  abbrev content_type : Option Json → List (Text × Text)
  content_type none = []
  content_type (some j) = (codes "Content-Type", codes "application/json") ∷ []

  abbrev body_text : Option Json → Option Text
  body_text none = none
  body_text (some j) = some (p.stringify j)

  -- `res.text().catch(() => res.statusText)`.
  abbrev text_or_status : Response → Text
  text_or_status r = elim r.body [ broken _ ↦ r.status_text | complete t ↦ t ]

  -- `res.json()`.
  abbrev json_of : Body → Outcome (Option Json)
  json_of (broken e) = thrown e
  json_of (complete t) = elim (p.parse t) [
    | none ↦ thrown (p.parse_error t)
    | some j ↦ value (some j)
  ]

  -- The end of `rawRequest`, from `if (!res.ok)`.
  unfoldable pub settle : Response → Outcome (Option Json)
  settle r =
      if not (is_ok r.status)
      then thrown (http_error r.status (text_or_status r))
      else if r.status == 204
      then value none
      else json_of r.body

  module _ (fetch : Wire → Fetched) (w : Window) where
    -- `none` as a result is JavaScript's `undefined`.
    unfoldable pub raw_request : Method → Text → Option Json → Exchange (Option Json)
    raw_request m url body = elim (auth_headers w m) [
      | thrown e ↦ record { sent = none; notified = false; outcome = thrown e }
      | value csrf ↦
          let headers : List (Text × Text) = content_type body ++ csrf in
          elim (fetch
            (record { method = m; url = url; headers = headers; body = body_text body })) [
              | rejected e ↦ record { sent = some headers; notified = false; outcome = thrown e }
              | answered r ↦ record {
                sent = some headers;
                notified = handle_unauthorized w r.status;
                outcome = settle r;
              }
            ]
    ]

    unfoldable pub raw_get : Text → List (String × QueryValue) → Exchange (Option Json)
    unfolding raw_request
    raw_get path params =
        raw_request get
          (p.set_params (api_url p w.origin w.vite_api_url path) (defined_params params)) none

    unfoldable pub raw_post : Text → Json → Exchange (Option Json)
    unfolding raw_request
    raw_post path body = raw_request post (api_url p w.origin w.vite_api_url path) (some body)

    unfoldable pub raw_patch : Text → Json → Exchange (Option Json)
    unfolding raw_request
    raw_patch path body = raw_request patch (api_url p w.origin w.vite_api_url path) (some body)

    unfoldable pub raw_put : Text → Json → Exchange (Option Json)
    unfolding raw_request
    raw_put path body = raw_request put (api_url p w.origin w.vite_api_url path) (some body)

    unfoldable pub raw_delete : Text → Exchange (Option Json)
    unfolding raw_request
    raw_delete path = raw_request delete (api_url p w.origin w.vite_api_url path) none
