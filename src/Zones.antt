-- ===== src/Zones.antt =====
-- apps/ui/src/pages/ZonesPage.tsx: the rows of the table.
pub mod Forms
pub mod Records
pub mod Detail
pub mod Laws
use mantis_dns.Base.{
  ℕ, ◌+◌, String, Bool, true, false, not, ◌&&◌, ◌||◌, Option, none, some, List, [], ◌∷◌, map,
  keep_if, length, if◌then◌else◌,
}
use mantis_dns.Base.Text.{Text, codes, is_empty, text_eq, text_le, includes, lower}
use mantis_dns.Base.Sort.{sort_by}
use mantis_dns.Base.Sets.{set_of}

-- `ZoneOut`, less the times.
pub record Zone : Type 0 where
  pub id : String
  pub tenant_id : Option Text
  pub name : Text
  pub zone_type : Text
  pub description : Text
  pub enabled : Bool
  pub ttl_default : ℕ
  pub forwarder : Option Text
  pub record_count : ℕ

-- `typeMeta(t).label`.
unfoldable pub type_label : Text → Text
type_label t =
    if text_eq t (codes "local")
    then codes "Local"
    else if text_eq t (codes "forward")
    then codes "Forward"
    else if text_eq t (codes "passthrough")
    then codes "Passthrough"
    else t

-- The filters in the URL.
pub record Filters : Type 0 where
  pub search : Text
  pub type : Text
  pub status : Text

abbrev pub by_name : (Text → Text → Bool) → Zone → Zone → Bool
by_name locale_le a b = locale_le a.name b.name

unfoldable pub sorted : (Text → Text → Bool) → List Zone → List Zone
sorted locale_le zones = sort_by (by_name locale_le) zones

unfoldable pub is_visible : Filters → Zone → Bool
unfolding lower
is_visible filters z =
    if not (is_empty filters.search)
      && not (includes (lower z.name) (lower filters.search))
      && not (includes (lower z.description) (lower filters.search))
    then false
    else if not (is_empty filters.type) && not (text_eq z.zone_type filters.type)
    then false
    else if text_eq filters.status (codes "active") && not z.enabled
    then false
    else if text_eq filters.status (codes "disabled") && z.enabled
    then false
    else true

unfoldable pub visible : (Text → Text → Bool) → Filters → List Zone → List Zone
visible locale_le filters zones = keep_if (is_visible filters) (sorted locale_le zones)

-- The cards.
unfoldable total_records : List Zone → ℕ
total_records [] = 0
total_records (z ∷ zs) = z.record_count + total_records zs

unfoldable pub by_type : List Zone → Text → ℕ
by_type zones t = length (keep_if (λ z. text_eq z.zone_type t) zones)

-- The choices of the filter on types, as values and labels.
unfoldable pub type_options : List Zone → List (Text × Text)
unfolding type_label
type_options zones =
    map (λ t. (t, type_label t)) (sort_by text_le (set_of text_eq (map (λ z. z.zone_type) zones)))
