-- ===== src/Api/Client/BaseUrl.antt =====
-- apps/ui/src/api/client.ts: `sameOriginBase`, `normalizeApiBase` and `apiUrl`.
use mantis_dns.Base.{Option, none, some, [], ◌∷◌, ◌++◌, if◌then◌else◌, ◌==◌}
use mantis_dns.Base.Text.{Text, codes, text_eq, or_text}
use mantis_dns.Base.Platform.{Platform}

-- `typeof window === "undefined" ? "" : window.location.origin`.
abbrev same_origin_base : Option Text → Text
same_origin_base none = []
same_origin_base (some origin) = origin

-- `value.replace(/\/+$/, "")`.
unfoldable strip_slashes : Text → Text
strip_slashes [] = []
strip_slashes (c ∷ s) = elim (strip_slashes s) [
  | [] ↦ if c == b'/' then [] else c ∷ []
  | d ∷ t ↦ c ∷ d ∷ t
]

-- The text in front of a suffix, if it ends with it.
unfoldable strip_suffix : Text → Text → Option Text
strip_suffix suffix [] = if text_eq [] suffix then some [] else none
strip_suffix suffix (c ∷ s) =
    if text_eq (c ∷ s) suffix
    then some []
    else elim (strip_suffix suffix s) [ none ↦ none | some t ↦ some (c ∷ t) ]

-- `normalizeApiBase(value)`, over `window`'s origin.
unfoldable api_base : Option Text → Option Text → Text
unfolding strip_slashes strip_suffix
api_base origin none = codes "http://localhost:8000"
api_base origin (some []) = same_origin_base origin
api_base origin (some (c ∷ s)) =
    let trimmed = strip_slashes (c ∷ s) in
    elim (strip_suffix (codes "/api/v1") trimmed) [
      | some front ↦ or_text front (same_origin_base origin)
      | none ↦ trimmed
    ]

-- `apiUrl(path)`.
unfoldable pub api_url : Platform → Option Text → Option Text → Text → Text
unfolding api_base
api_url p origin vite path = p.resolve_url (api_base origin vite ++ path) (same_origin_base origin)
