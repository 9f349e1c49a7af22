-- ===== src/Policy/Categories.antt =====
-- apps/ui/src/pages/PolicyPage.tsx: the card of the categories, and the domain that is tested.
pub mod Laws
use mantis_dns.Base.{ℕ, Bool, Option, none, some, List, [], ◌∷◌, map, keep_if, if◌then◌else◌, ◌==◌}
use mantis_dns.Base.Text.{Text, codes, is_empty, text_eq, to_lower, trim}
use mantis_dns.Base.Sets.{has}
use mantis_dns.Base.Groups.{group_of, collect, keys_of}
use mantis_dns.Policy.Editor.{CategoryToggle, Contents}

-- The `group` of a category.
pub data CategoryGroup : Type 0 where
  security content distraction privacy network : CategoryGroup

abbrev pub group_index : CategoryGroup → ℕ
group_index security = 0
group_index content = 1
group_index distraction = 2
group_index privacy = 3
group_index network = 4

-- `===` on groups.
abbrev pub group_eq : CategoryGroup → CategoryGroup → Bool
group_eq g h = group_index g == group_index h

-- `Category` of api/hooks.ts, less what the page only draws.
pub record Category : Type 0 where
  pub id : Text
  pub label : Text
  pub group : CategoryGroup

-- `GROUP_ORDER`.
abbrev pub group_order : List CategoryGroup
group_order = security ∷ content ∷ distraction ∷ privacy ∷ network ∷ []

abbrev pub group_key : Category → CategoryGroup
group_key c = c.group

-- `categoriesByGroup`.
abbrev pub categories_by_group : List Category → List (CategoryGroup × List Category)
categories_by_group categories = collect group_eq group_key [] categories

abbrev pub row_of_group :
    List (CategoryGroup × List Category) → CategoryGroup → CategoryGroup × List Category
row_of_group groups g = (g, group_of group_eq group_key groups g)

-- The groups of the card, each with its rows.
unfoldable pub shown_groups : List Category → List (CategoryGroup × List Category)
shown_groups categories =
    let groups = categories_by_group categories in
    map (row_of_group groups)
      (keep_if (has group_eq (keys_of group_eq group_key groups)) group_order)

-- `categoryToggles.find((c) => c.category_id === cat.id)?.action ?? "off"`.
abbrev toggled : Text → List CategoryToggle → Text
toggled id [] = codes "off"
toggled id (t ∷ toggles) = if text_eq t.category_id id then t.action else toggled id toggles

unfoldable pub shown_action : Category → Contents → Text
shown_action c contents = toggled c.id contents.toggles

-- `s.replace(/\.$/, "")`.
abbrev pub strip_dot : Text → Text
strip_dot [] = []
strip_dot (c ∷ []) = if c == b'.' then [] else c ∷ []
strip_dot (c ∷ d ∷ s) = c ∷ strip_dot (d ∷ s)

-- The submit handler of the form that tests a domain: what `testPolicy.mutate` is given.
unfoldable pub tested_domain : Text → Option Text
unfolding to_lower trim
tested_domain typed =
    let d = strip_dot (map to_lower (trim typed)) in if is_empty d then none else some d
