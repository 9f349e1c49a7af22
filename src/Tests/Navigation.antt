-- ===== src/Tests/Navigation.antt =====
-- The URL's filters and the guard of unsaved changes at concrete inputs.
use mantis_dns.Base.{String, true, false, Option, some, List, [], ◌∷◌, ◌≡◌, refl, if◌then◌else◌}
use mantis_dns.Base.Text.{Text, codes}
use mantis_dns.Navigation.UrlFilters.{Params, get, values, set_filters, or_default}
use mantis_dns.Navigation.UrlFilters.Laws.{IsObject, in_patch, given, values-set_filters}
use mantis_dns.Navigation.UnsavedGuard.{
  fresh, effect, navigate, confirm, cancel, step, run, asks_before_unload, navigate-run,
}

abbrev defaults : Params
defaults = ("hours", codes "24") ∷ ("offset", codes "0") ∷ []

abbrev params : Params
params = ("offset", codes "50") ∷ ("tab", codes "log") ∷ []

abbrev patch : List (String × Option Text)
patch = ("hours", some (codes "6")) ∷ ("offset", some (codes "0")) ∷ []

patch-IsObject : IsObject patch
patch-IsObject = (refl, (refl, tt))

values-set_filters_example :
    get "hours" (values defaults (set_filters defaults patch params))
    ≡ some
        (given (codes "24") (in_patch "hours" patch) (or_default (codes "24") (get "hours" params)))
unfolding get
values-set_filters_example =
    values-set_filters defaults patch params "hours" (codes "24") refl patch-IsObject

navigate-run_example :
    let g = run (effect false ∷ effect true ∷ []) fresh in
    let after = step (navigate (codes "/tenants")) g in
    (after.visited ≡ (if asks_before_unload g then g.visited else codes "/tenants" ∷ g.visited))
    × (asks_before_unload g ≡ true
        → ((step cancel after).visited ≡ g.visited)
          × ((step confirm after).visited ≡ codes "/tenants" ∷ g.visited))
navigate-run_example = navigate-run (effect false ∷ effect true ∷ []) (codes "/tenants")
