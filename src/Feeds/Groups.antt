-- ===== src/Feeds/Groups.antt =====
-- apps/ui/src/pages/FeedsPage.tsx: the rows under their categories, and the chips of the categories.
pub mod Laws
use mantis_dns.Base.{
  ℕ, ◌-◌, not, ◌&&◌, Option, none, some, List, [], ◌∷◌, ◌++◌, map, keep_if, length, if◌then◌else◌,
  leb,
}
use mantis_dns.Base.Text.{Text, codes, text_eq, text_le}
use mantis_dns.Base.Sort.{sort_by}
use mantis_dns.Base.Sets.{has, set_of}
use mantis_dns.Base.Groups.{group_of, collect, keys_of}
use mantis_dns.Feeds.{Feed}

-- `Category` of api/hooks.ts, less what the page does not read.
pub record Category : Type 0 where
  pub id : Text
  pub label : Text
  pub color : Text

-- `categoryById.get(id)`: a later category takes the place of an earlier one with its id.
abbrev category_by_id : List Category → Text → Option Category
category_by_id [] id = none
category_by_id (c ∷ cs) id = elim (category_by_id cs id) [
  | some d ↦ some d
  | none ↦ if text_eq c.id id then some c else none
]

-- `charAt(0).toUpperCase()` on ASCII, and the rest.
abbrev capitalized : Text → Text
capitalized [] = []
capitalized (c ∷ s) = (if leb b'a' c && leb c b'z' then c - 32 else c) ∷ s

unfoldable category_label : List Category → Text → Text
category_label registry id = elim (category_by_id registry id) [
  | none ↦ capitalized id
  | some c ↦ c.label
]

unfoldable category_color : List Category → Text → Text
category_color registry id = elim (category_by_id registry id) [
  | none ↦ codes "gray"
  | some c ↦ c.color
]

-- The categories that are present: those of the registry in its order, then the others, sorted.
unfoldable pub ordered_ids : List Text → List Text → List Text
ordered_ids registry present =
    keep_if (has text_eq present) registry
    ++ sort_by text_le (keep_if (λ id. not (has text_eq registry id)) present)

unfoldable pub category_chips : List Text → List Feed → List (Text × ℕ)
unfolding ordered_ids
category_chips registry feeds =
    map (λ id. (id, length (keep_if (λ f. text_eq f.category_id id) feeds)))
      (ordered_ids registry (set_of text_eq (map (λ f. f.category_id) feeds)))

-- `groupedRows`, with `byCategory` first.
unfoldable pub grouped_rows : List Text → List Feed → List (Text × List Feed)
unfolding ordered_ids
grouped_rows registry visible =
    let by_category = collect text_eq (λ f. f.category_id) [] visible in
    map (λ id. (id, group_of text_eq (λ f. f.category_id) by_category id))
      (ordered_ids registry (keys_of text_eq (λ f. f.category_id) by_category))
