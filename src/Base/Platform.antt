-- ===== src/Base/Platform.antt =====
-- The functions of the browser that the program calls and that are not modelled here: JSON text, URI
-- decoding and URLs. The parts that may throw return `none`, and the error's message is a function too.
use mathlib.Core.Path.{◌≡◌}
use native.Mathlib.Omega.{arith}
use mathlib.Core.List.{List, []}
use mathlib.Core.Option.{Option, none, some}
use mantis_dns.Base.Text.{Text, trim_start}
use mantis_dns.Base.Json.{Json}

pub record Platform : Type 0 where
  -- `JSON.parse`, and the message of the `SyntaxError` that it throws.
  pub parse : Text → Option Json
  pub parse_error : Text → Text
  -- `JSON.stringify`.
  pub stringify : Json → Text
  -- `decodeURIComponent`, and the message of its `URIError`.
  pub decode_uri : Text → Option Text
  pub uri_error : Text → Text
  -- `new URL(url, base).toString()`, and `searchParams.set` for each pair.
  pub resolve_url : Text → Text → Text
  pub set_params : Text → List (Text × Text) → Text

-- What is written as JSON reads back, and has no white space in front.
pub record IsFaithful (p : Platform) : Type 0 where
  pub parse-stringify : (j : Json) → p.parse (p.stringify j) ≡ some j
  pub trim_start-stringify : (j : Json) → trim_start (p.stringify j) ≡ p.stringify j
  -- The empty text is no JSON.
  pub parse_empty : p.parse [] ≡ none

-- Values with the same JSON text are the same.
pub stringify-injective :
    (p : Platform) → IsFaithful p → (i j : Json) → p.stringify i ≡ p.stringify j → i ≡ j
stringify-injective p F i j h = ground (arith, F.parse-stringify i, F.parse-stringify j)
