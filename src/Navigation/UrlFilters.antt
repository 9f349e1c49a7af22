-- ===== src/Navigation/UrlFilters.antt =====
-- apps/ui/src/hooks/useUrlFilters.ts. The search parameters of the URL are a list of pairs with the
-- operations of `URLSearchParams`; the router puts what `setFilters` returns in their place.
pub mod Laws
use mantis_dns.Base.{
  String, str_eq, Bool, true, false, Option, none, some, List, [], ◌∷◌, ◌++◌, if◌then◌else◌,
}
use mantis_dns.Base.Text.{Text, text_eq}

abbrev pub Params : Type 0
Params = List (String × Text)

-- `get`: the first value of the name.
unfoldable pub get : String → Params → Option Text
get k [] = none
get k ((j, v) ∷ ps) = if str_eq j k then some v else get k ps

-- `delete`: every pair of the name.
unfoldable pub delete : String → Params → Params
delete k [] = []
delete k ((j, v) ∷ ps) = let rest = delete k ps in if str_eq j k then rest else (j, v) ∷ rest

-- `set`: the first pair of the name takes the value and the others go; a new name comes last.
unfoldable pub set : String → Text → Params → Params
unfolding delete
set k v [] = (k, v) ∷ []
set k v ((j, w) ∷ ps) =
    let rest = set k v ps in if str_eq j k then (k, v) ∷ delete k ps else (j, w) ∷ rest

-- `values`: the URL's value of each filter, or its default.
abbrev pub or_default : Text → Option Text → Text
or_default d none = d
or_default d (some v) = v

unfoldable pub values : Params → Params → Params
unfolding get
values [] ps = []
values ((k, d) ∷ defaults) ps = (k, or_default d (get k ps)) ∷ values defaults ps

abbrev pub is_default : Option Text → Text → Bool
is_default none v = false
is_default (some d) v = text_eq v d

-- The body of the loop in `setFilters`; `none` is a key whose value is `undefined`.
unfoldable pub put_filter : Params → String → Option Text → Params → Params
unfolding get set delete
put_filter defaults k none ps = delete k ps
put_filter defaults k (some v) ps =
    if is_default (get k defaults) v then delete k ps else set k v ps

unfoldable pub set_filters : Params → List (String × Option Text) → Params → Params
unfolding put_filter
set_filters defaults [] ps = ps
set_filters defaults ((k, v) ∷ patch) ps = set_filters defaults patch (put_filter defaults k v ps)
