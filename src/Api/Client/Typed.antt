-- ===== src/Api/Client/Typed.antt =====
-- apps/ui/src/api/client.ts: the typed client with its middleware, and `unwrap`. openapi-fetch, which
-- is not part of the repository, is the argument `exchange`: it sends the request with the headers
-- that `onRequest` has set, and calls `onResponse` when an answer has come.
use mantis_dns.Base.{ℕ, false, Option, none, some, List, if◌then◌else◌, ◌==◌}
use mantis_dns.Base.Text.{Text, codes}
use mantis_dns.Base.Json.{Json, null, obj, field}
use mantis_dns.Base.Platform.{Platform}
use mantis_dns.Api.Request.{Request, Decode, null_on_404}
use mantis_dns.Api.Errors.{to_text}
use mantis_dns.Api.Outcome.{Outcome, value, thrown}
use mantis_dns.Api.Client.{Window, Exchange, auth_headers, handle_unauthorized, http_error, is_ok}

-- What openapi-fetch returns: `data`, `error` and the response's status.
pub record ApiResult : Type 0 where
  pub payload : Option Json
  pub error : Option Json
  pub status : ℕ

pub data TypedAnswer : Type 0 where
  returned : ApiResult → TypedAnswer
  rejected : Text → TypedAnswer

module _ (p : Platform) where
  -- `"detail" in error ? String(error.detail) : JSON.stringify(error)`.
  abbrev error_detail : Json → Text
  error_detail (obj ms) = elim (field "detail" ms) [
    | none ↦ p.stringify (obj ms)
    | some d ↦ to_text d
  ]
  error_detail j = p.stringify j

  unfoldable pub unwrap : ApiResult → Outcome (Option Json)
  unwrap r = elim r.error [
    | some e ↦ thrown (http_error r.status (error_detail e))
    | none ↦ elim r.payload [
      | none ↦
          if is_ok r.status
          then value none
          else thrown (http_error r.status (codes "empty response"))
      | some d ↦ value (some d)
    ]
  ]

  -- The middleware's `onRequest` and `onResponse` round one exchange.
  unfoldable pub typed_request :
      (Request → List (Text × Text) → TypedAnswer) → Window → Request → Exchange ApiResult
  typed_request exchange w req = elim (auth_headers p w req.method) [
    | thrown e ↦ record { sent = none; notified = false; outcome = thrown e }
    | value headers ↦ elim (exchange req headers) [
      | rejected e ↦ record { sent = some headers; notified = false; outcome = thrown e }
      | returned r ↦ record {
        sent = some headers;
        notified = handle_unauthorized w r.status;
        outcome = value r;
      }
    ]
  ]

  -- What a hook makes of the result: `unwrap`, or `null` for a 404 first.
  unfoldable pub decode_typed : Decode → ApiResult → Outcome (Option Json)
  decode_typed null_on_404 r = if r.status == 404 then value (some null) else unwrap r
  decode_typed _ r = unwrap r
