-- ===== src/Api/Errors.antt =====
-- apps/ui/src/api/errors.ts: the message that the user sees for an API error.
pub mod Laws
use mantis_dns.Base.{
  ℕ, suc, zero, ◌+◌, ◌-◌, ◌*◌, Bool, true, false, ◌&&◌, not, Option, none, some, List, [], ◌∷◌,
  ◌++◌, if◌then◌else◌, ◌==◌,
}
use mantis_dns.Base.Text.{Text, codes, text_eq, is_empty, is_digit, trim, trim_start, join, show}
use mantis_dns.Base.Json.{
  Json, Elems, Members, null, bool, num, str, arr, obj, nil, cons, elems, field,
}
use mantis_dns.Base.Platform.{Platform}

-- `STATUS_PREFIX[status]`.
unfoldable status_prefix : ℕ → Option Text
status_prefix s =
    if s == 400
    then some (codes "Invalid request")
    else if s == 401
    then some (codes "Session expired")
    else if s == 403
    then some (codes "You don't have permission to do this")
    else if s == 404
    then some (codes "Not found")
    else if s == 409
    then some (codes "Already exists or conflicts with existing data")
    else if s == 422
    then some (codes "Invalid input")
    else if s == 429
    then some (codes "Too many requests — try again shortly")
    else if s == 500
    then some (codes "Server error")
    else if s == 502
    then some (codes "Server error")
    else if s == 503
    then some (codes "Service unavailable")
    else none

-- `String(v)`: the elements of an array are joined by commas, `null` among them as nothing.
unfoldable mutual
  pub to_text : Json → Text
  to_text null = codes "null"
  to_text (bool true) = codes "true"
  to_text (bool false) = codes "false"
  to_text (num n) = show n
  to_text (str s) = s
  to_text (arr vs) = elems_text vs
  to_text (obj ms) = codes "[object Object]"

  pub elems_text : Elems → Text
  elems_text nil = []
  elems_text (cons v nil) = element_text v
  elems_text (cons v (cons w vs)) = element_text v ++ codes "," ++ elems_text (cons w vs)

  element_text : Json → Text
  element_text null = []
  element_text (bool true) = codes "true"
  element_text (bool false) = codes "false"
  element_text (num n) = show n
  element_text (str s) = s
  element_text (arr vs) = elems_text vs
  element_text (obj ms) = codes "[object Object]"

-- The `msg` of an entry of a validation error, if it has one.
abbrev entry_message : Json → Option Text
entry_message (obj ms) = elim (field "msg" ms) [ none ↦ none | some v ↦ some (to_text v) ]
entry_message _ = none

-- `.map(…).filter((m) => m !== null)`.
unfoldable pub messages : List Json → List Text
messages [] = []
messages (v ∷ vs) = elim (entry_message v) [ none ↦ messages vs | some m ↦ m ∷ messages vs ]

abbrev joined : List Text → Option Text
joined [] = none
joined (m ∷ ms) = some (join (codes "; ") (m ∷ ms))

-- The part of `extractDetail` after `detail` is known.
unfoldable pub detail_text : Json → Option Text
unfolding messages
detail_text (str s) = some s
detail_text (arr vs) = joined (messages (elems vs))
detail_text _ = none

-- `parsed && typeof parsed === "object" && "detail" in parsed ? parsed.detail : parsed`.
unfoldable pub detail_of : Json → Json
detail_of (obj ms) = elim (field "detail" ms) [ none ↦ obj ms | some d ↦ d ]
detail_of v = v

-- `s || null`.
abbrev nonempty_text : Text → Option Text
nonempty_text [] = none
nonempty_text (c ∷ s) = some (c ∷ s)

-- `/^(\d{3}):\s*([\s\S]*)$/`: the number and the rest.
unfoldable pub match_status : Text → Option (ℕ × Text)
match_status (a ∷ b ∷ c ∷ d ∷ rest) =
    if is_digit a && is_digit b && is_digit c && d == b':'
    then some ((a - b'0') * 100 + (b - b'0') * 10 + (c - b'0'), trim_start rest)
    else none
match_status _ = none

-- `STATUS_PREFIX[status] ?? `Error ${status}``.
unfoldable pub prefix_of : ℕ → Text
unfolding status_prefix
prefix_of s = elim (status_prefix s) [ none ↦ codes "Error " ++ show s | some t ↦ t ]

-- `detail && detail !== prefix ? `${prefix}: ${detail}` : prefix`.
unfoldable pub with_detail : Text → Option Text → Text
with_detail prefix none = prefix
with_detail prefix (some d) =
    if not (is_empty d) && not (text_eq d prefix) then prefix ++ codes ": " ++ d else prefix

module _ (p : Platform) where
  unfoldable pub extract_detail : Text → Option Text
  unfolding detail_text detail_of
  extract_detail rest = elim (p.parse rest) [
    | none ↦ nonempty_text (trim rest)
    | some parsed ↦ detail_text (detail_of parsed)
  ]

  -- `formatError` of an `Error` with this message, or of a thrown value with this text.
  unfoldable pub format_error : Text → Text
  unfolding extract_detail match_status prefix_of with_detail
  format_error message = elim (match_status message) [
    | none ↦ message
    | some (status, rest) ↦ with_detail (prefix_of status) (extract_detail rest)
  ]
