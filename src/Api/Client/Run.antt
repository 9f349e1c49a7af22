-- ===== src/Api/Client/Run.antt =====
-- A hook of apps/ui/src/api/hooks.ts in use: its request goes through the client of client.ts, and the
-- `onSuccess` of a mutation runs on the query cache if, and only if, the mutation has not thrown.
use mantis_dns.Base.{Option, none, some, List, [], ◌∷◌, ◌++◌}
use mantis_dns.Base.Text.{Text, codes}
use mantis_dns.Base.Json.{Json, null}
use mantis_dns.Base.Platform.{Platform}
use mantis_dns.Api.Request.{
  get, head, post, put, patch, delete, PathPart, lit, param, typed, raw, Request, Decode, unwrapped,
  QuerySpec, CacheOp,
}
use mantis_dns.Api.Outcome.{Outcome, value, thrown, ◌>>=◌}
use mantis_dns.Api.Cache.{QueryClient, apply_ops}
use mantis_dns.Api.Mutations.{MutationHook, sent, effects}
use mantis_dns.Api.Client.{
  Window, Wire, Fetched, Exchange, raw_get, raw_post, raw_patch, raw_put, raw_delete,
}
use mantis_dns.Api.Client.Typed.{TypedAnswer, typed_request, decode_typed}

-- A template literal: a value that is `undefined` is written so.
abbrev pub render : List PathPart → Text
render [] = []
render (lit s ∷ ps) = codes s ++ render ps
render (param none ∷ ps) = codes "undefined" ++ render ps
render (param (some v) ∷ ps) = codes v ++ render ps

-- What lies between the program and the server.
pub record Network : Type 0 where
  pub fetch : Wire → Fetched
  pub exchange : Request → List (Text × Text) → TypedAnswer

abbrev pub or_null : Option Json → Json
or_null none = null
or_null (some j) = j

-- The result of an exchange, put through a function that may throw.
abbrev pub and_then : {A B : Type 0} → Exchange A → (A → Outcome B) → Exchange B
and_then x f = record { sent = x.sent; notified = x.notified; outcome = x.outcome >>= f }

-- TanStack Query runs `onSuccess` after a mutation that has not thrown.
abbrev pub after_success :
    (qc : QueryClient) → List CacheOp → Outcome (Option Json) → qc.Cache → qc.Cache
after_success qc ops (value _) c = apply_ops qc ops c
after_success qc ops (thrown _) c = c

module _ (p : Platform) (net : Network) (w : Window) where
  unfoldable send_raw : Request → Exchange (Option Json)
  unfolding raw_get raw_post raw_patch raw_put raw_delete
  send_raw req = elim req.method [
    | get ↦ raw_get p net.fetch w (render req.path) req.query
    | head ↦ raw_get p net.fetch w (render req.path) req.query
    | post ↦ raw_post p net.fetch w (render req.path) (or_null req.body)
    | put ↦ raw_put p net.fetch w (render req.path) (or_null req.body)
    | patch ↦ raw_patch p net.fetch w (render req.path) (or_null req.body)
    | delete ↦ raw_delete p net.fetch w (render req.path)
  ]

  unfoldable pub send : Decode → Request → Exchange (Option Json)
  unfolding send_raw typed_request
  send decode req = elim req.via [
    | raw ↦ send_raw req
    | typed ↦ and_then (typed_request p net.exchange w req) (decode_typed p decode)
  ]

  unfoldable pub run_query : QuerySpec → Exchange (Option Json)
  unfolding send
  run_query spec = send spec.decode spec.query_fn

  module _ (qc : QueryClient) where
    unfoldable pub run_mutation : MutationHook → qc.Cache → Exchange (Option Json) × qc.Cache
    run_mutation m c =
        let x = send unwrapped (sent m) in (x, after_success qc (effects m) x.outcome c)
