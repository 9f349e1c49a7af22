-- ===== src/Api/Request.antt =====
-- What a data hook of apps/ui/src/api/hooks.ts is made of: a request, a cache key, and the changes
-- to the cache once a mutation has succeeded.
use mantis_dns.Base.{if◌then◌else◌, ℕ, String, Bool, true, false, Option, none, some, List, [], ◌∷◌}
use mantis_dns.Base.Json.{Json}

pub data Method : Type 0 where
  get head post put patch delete : Method

-- `method !== "GET" && method !== "HEAD"`.
abbrev pub is_mutating : Method → Bool
is_mutating get = false
is_mutating head = false
is_mutating _ = true

-- A piece of a path: text of the source, or a value put in its place, which may be `undefined`.
pub data PathPart : Type 0 where
  lit : String → PathPart
  param : Option String → PathPart

-- A search parameter's value.
pub data QueryValue : Type 0 where
  text : String → QueryValue
  num : ℕ → QueryValue
  flag : Bool → QueryValue
  undefined : QueryValue

-- `typed` is the client that openapi-fetch makes, `raw` the `raw…` functions of client.ts.
pub data Via : Type 0 where
  typed raw : Via

pub record Request : Type 0 where
  pub via : Via
  pub method : Method
  pub path : List PathPart
  pub query : List (String × QueryValue)
  pub body : Option Json

abbrev pub request : Via → Method → List PathPart → Request
request via method path = record {
  via = via;
  method = method;
  path = path;
  query = [];
  body = none;
}

abbrev pub sending : Via → Method → List PathPart → Json → Request
sending via method path body = record (request via method path) { body = some body }

-- A string is falsy when it is empty, and so is `undefined`.
abbrev pub is_nonempty : String → Bool
is_nonempty String.[] = false
is_nonempty (String.◌∷◌ c s) = true

abbrev pub truthy : Option String → Bool
truthy none = false
truthy (some s) = is_nonempty s

-- A component of a query key.
pub data KeyPart : Type 0 where
  word : String → KeyPart
  int : ℕ → KeyPart
  bit : Bool → KeyPart
  undef : KeyPart

abbrev pub QueryKey : Type 0
QueryKey = List KeyPart

abbrev pub opt_word : Option String → KeyPart
opt_word none = undef
opt_word (some s) = word s

abbrev pub opt_int : Option ℕ → KeyPart
opt_int none = undef
opt_int (some n) = int n

-- What the hook does with the response.
pub data Decode : Type 0 where
  unwrapped : Decode
  null_on_404 : Decode
  raw_json : Decode

pub data StaleTime : Type 0 where
  standard : StaleTime
  after_ms : ℕ → StaleTime
  never : StaleTime

pub record QuerySpec : Type 0 where
  pub query_key : QueryKey
  pub query_fn : Request
  pub decode : Decode
  pub enabled : Bool
  pub refetch_interval : Option ℕ
  pub stale_time : StaleTime

abbrev pub query : QueryKey → Request → Decode → QuerySpec
query key req decode = record {
  query_key = key;
  query_fn = req;
  decode = decode;
  enabled = true;
  refetch_interval = none;
  stale_time = standard;
}

pub data CacheOp : Type 0 where
  invalidate : QueryKey → CacheOp
  remove : QueryKey → CacheOp

pub record Mutation (I : Type 0) : Type 0 where
  pub mutation_fn : I → Request
  pub on_success : I → List CacheOp

-- A mutation that changes the cache in the same way whatever its input.
abbrev pub mutation : {I : Type 0} → (I → Request) → List CacheOp → Mutation I
mutation fn ops = record { mutation_fn = fn; on_success = λ _. ops }

-- `v ? { name: v } : {}` and `v ? { name: v } : undefined`.
abbrev pub filter_by : String → Option String → List (String × QueryValue)
filter_by name none = []
filter_by name (some v) = if is_nonempty v then (name, text v) ∷ [] else []
