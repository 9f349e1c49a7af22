-- ===== src/Api/Client/Cookie.antt =====
-- apps/ui/src/api/client.ts: `readCookie`.
pub mod Jar
use mantis_dns.Base.{
  ℕ, Bool, true, false, ◌&&◌, Option, none, some, List, [], ◌∷◌, ◌++◌, if◌then◌else◌, ◌==◌,
}
use mantis_dns.Base.Text.{Text, codes}
use mantis_dns.Base.Platform.{Platform}
use mantis_dns.Api.Outcome.{Outcome, value, thrown}

-- What follows a prefix, if the text begins with it.
unfoldable pub strip_prefix : Text → Text → Option Text
strip_prefix [] s = some s
strip_prefix (p ∷ ps) [] = none
strip_prefix (p ∷ ps) (c ∷ s) = if c == p then strip_prefix ps s else none

-- `[^;]*`.
unfoldable pub up_to_semicolon : Text → Text
up_to_semicolon [] = []
up_to_semicolon (c ∷ s) = let rest = up_to_semicolon s in if c == b';' then [] else c ∷ rest

-- A match behind `; `, leftmost first.
unfoldable pub match_later : Text → Text → Option Text
match_later name [] = none
match_later name (c ∷ s) = elim (strip_prefix (codes "; " ++ name ++ codes "=") (c ∷ s)) [
  | some rest ↦ some (up_to_semicolon rest)
  | none ↦ match_later name s
]

-- `document.cookie.match(new RegExp(`(?:^|; )${name}=([^;]*)`))`, its group. The name that the program
-- looks for has no character that is special in a regular expression.
unfoldable pub match_cookie : Text → Text → Option Text
unfolding strip_prefix up_to_semicolon match_later
match_cookie name s = elim (strip_prefix (name ++ codes "=") s) [
  | some rest ↦ some (up_to_semicolon rest)
  | none ↦ match_later name s
]

unfoldable pub read_cookie : Platform → Text → Text → Outcome (Option Text)
unfolding match_cookie
read_cookie p name cookie = elim (match_cookie name cookie) [
  | none ↦ value none
  | some raw ↦ elim (p.decode_uri raw) [ none ↦ thrown (p.uri_error raw) | some v ↦ value (some v) ]
]
