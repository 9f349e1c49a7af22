-- ===== src/Navigation/UrlFilters/Laws.antt =====
-- What a filter reads after `setFilters`.
use mantis_dns.Base.{
  String, str_eq, eq_iff, Option, none, some, List, [], ◌∷◌, ◌≡◌, refl, arith, if◌then◌else◌,
}
use mantis_dns.Base.Text.{Text, text_eq_sound, text_eq_refl}
use mantis_dns.Navigation.UrlFilters.{
  Params, get, delete, set, values, or_default, is_default, put_filter, set_filters,
}

get-delete :
    (j k : String) (ps : Params) → get j (delete k ps) ≡ (if str_eq k j then none else get j ps)
unfolding get delete
get-delete j k [] = ground arith
get-delete j k ((i, v) ∷ ps) = ground (arith, eq_iff i k, eq_iff i j, eq_iff k j, get-delete j k ps)

pub get-set :
    (j k : String) (v : Text) (ps : Params)
    → get j (set k v ps) ≡ (if str_eq k j then some v else get j ps)
unfolding get set
get-set j k v [] = refl
get-set j k v ((i, w) ∷ ps) =
    ground (arith, eq_iff i k, eq_iff i j, eq_iff k j, get-set j k v ps, get-delete j k ps)

-- What a filter is set to by a patch: its default is left out of the URL.
abbrev stored : Params → String → Option Text → Option Text
stored defaults k none = none
stored defaults k (some v) = if is_default (get k defaults) v then none else some v

get-put_filter :
    (defaults : Params) (j k : String) (v : Option Text) (ps : Params)
    → get j (put_filter defaults k v ps) ≡ (if str_eq k j then stored defaults k v else get j ps)
unfolding put_filter
get-put_filter defaults j k none ps = get-delete j k ps
get-put_filter defaults j k (some v) ps = ground (arith, get-delete j k ps, get-set j k v ps)

abbrev Patch : Type 0
Patch = List (String × Option Text)

abbrev pub in_patch : String → Patch → Option (Option Text)
in_patch k [] = none
in_patch k ((j, v) ∷ patch) = if str_eq j k then some v else in_patch k patch

-- An object has a key once.
abbrev pub IsObject : Patch → Type 0
IsObject [] = Unit {0}
IsObject ((k, v) ∷ patch) = (in_patch k patch ≡ none) × IsObject patch

abbrev stored_of : Params → String → Option (Option Text) → Option Text → Option Text
stored_of defaults k none before = before
stored_of defaults k (some v) before = stored defaults k v

-- After `setFilters` the URL holds of each name what the patch stores for it, and of a name that the
-- patch lacks what it held before, also where the name is no filter.
get-set_filters :
    (defaults : Params) (patch : Patch) (ps : Params) (j : String)
    → IsObject patch
    → get j (set_filters defaults patch ps) ≡ stored_of defaults j (in_patch j patch) (get j ps)
unfolding set_filters
get-set_filters defaults [] ps j o = refl
get-set_filters defaults ((k, v) ∷ patch) ps j o = ground (
  arith,
  eq_iff k j,
  get-put_filter defaults j k v ps,
  get-set_filters defaults patch (put_filter defaults k v ps) j o.1,
)

get-values :
    (defaults ps : Params) (k : String) (d : Text)
    → get k defaults ≡ some d
    → get k (values defaults ps) ≡ some (or_default d (get k ps))
unfolding values
get-values [] ps k d h = ground arith
get-values ((j, e) ∷ defaults) ps k d h = ground (arith, eq_iff j k, get-values defaults ps k d)

-- The value that a patch gives a filter whose default is `d`, over the value that it had.
abbrev pub given : Text → Option (Option Text) → Text → Text
given d none before = before
given d (some none) before = d
given d (some (some v)) before = v

given-stored :
    (defaults : Params) (k : String) (d : Text) (v : Option (Option Text)) (before : Option Text)
    → get k defaults ≡ some d
    → or_default d (stored_of defaults k v before) ≡ given d v (or_default d before)
given-stored defaults k d none before h = refl
given-stored defaults k d (some none) before h = refl
given-stored defaults k d (some (some v)) before h = ground (arith, text_eq_sound v d)

-- A filter with a default reads, after `setFilters` with a patch that has each key once, the value
-- that the patch gives it, its default where the patch says `undefined`, and what it read before
-- where the patch does not name it.
pub values-set_filters :
    (defaults : Params) (patch : Patch) (ps : Params) (k : String) (d : Text)
    → get k defaults ≡ some d
    → IsObject patch
    → get k (values defaults (set_filters defaults patch ps))
      ≡ some (given d (in_patch k patch) (or_default d (get k ps)))
values-set_filters defaults patch ps k d h o = ground (
  arith,
  get-values defaults (set_filters defaults patch ps) k d h,
  get-set_filters defaults patch ps k o,
  given-stored defaults k d (in_patch k patch) (get k ps) h,
)

-- A name whose value in the patch equals its default is absent from the URL afterwards.
get-set_filters_default :
    (defaults : Params) (patch : Patch) (ps : Params) (k : String) (d : Text)
    → get k defaults ≡ some d
    → IsObject patch
    → in_patch k patch ≡ some (some d)
    → get k (set_filters defaults patch ps) ≡ none
get-set_filters_default defaults patch ps k d h o e =
    ground (arith, get-set_filters defaults patch ps k o, text_eq_refl d)
