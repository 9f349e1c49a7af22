-- ===== src/Policy/Categories/Laws.antt =====
-- The card of the categories shows every category once.
use mathlib.Core.List.{Permᴰ}
use mantis_dns.Base.{
  ℕ, true, List, [], ◌∷◌, ◌++◌, map, keep_if, ◌≡◌, refl, sym, ap, subst, ◌∙◌, arith, all,
  if◌then◌else◌, ◌==◌,
}
use mantis_dns.Base.Sets.{IsEquality, has, distinct-keep_if, has-keep_if, has-add_all}
use mantis_dns.Base.Groups.{concat, keys_of, rows_of, group_of-collect, keys_of-collect}
use mantis_dns.Base.Groups.Cover.{concat-rows_of}
use mantis_dns.Policy.Categories.{
  CategoryGroup, security, content, distraction, privacy, network, group_index, group_eq, Category,
  group_key, group_order, categories_by_group, row_of_group, shown_groups,
}

abbrev of_index : ℕ → CategoryGroup
of_index n =
    if n == 0
    then security
    else if n == 1
    then content
    else if n == 2
    then distraction
    else if n == 3
    then privacy
    else network

of_index-group_index : (g : CategoryGroup) → of_index (group_index g) ≡ g
of_index-group_index security = refl
of_index-group_index content = refl
of_index-group_index distraction = refl
of_index-group_index privacy = refl
of_index-group_index network = refl

group_eq-IsEquality : IsEquality group_eq
group_eq-IsEquality = record {
  reflexive = λ g. ground arith;
  sound = λ g h e.
      sym (of_index-group_index g)
      ∙ ap of_index {x = group_index g} {y = group_index h} (ground arith)
      ∙ of_index-group_index h;
}

in_order : (g : CategoryGroup) → has group_eq group_order g ≡ true
in_order security = refl
in_order content = refl
in_order distraction = refl
in_order privacy = refl
in_order network = refl

-- The rows of the card, from the top.
abbrev pub card_rows : List (CategoryGroup × List Category) → List Category
card_rows [] = []
card_rows ((g, rows) ∷ groups) = rows ++ card_rows groups

card_rows-map :
    (categories : List Category) (gs : List CategoryGroup)
    → card_rows (map (row_of_group (categories_by_group categories)) gs)
      ≡ concat (map (rows_of group_eq group_key categories) gs)
card_rows-map categories [] = refl
card_rows-map categories (g ∷ gs) =
    rw
      (
        group_of-collect group_eq group_key group_eq-IsEquality [] categories g,
        card_rows-map categories gs,
      )
      refl

abbrev shown : List Category → List CategoryGroup
shown categories =
    keep_if (has group_eq (keys_of group_eq group_key (categories_by_group categories))) group_order

all-shown :
    (categories : List Category)
    → all (λ c. has group_eq (shown categories) (group_key c)) categories ≡ true
all-shown categories = go categories (λ c h. h)
  where
    go :
        (cs : List Category)
        → ((c : Category)
            → has group_eq (map group_key cs) (group_key c) ≡ true
            → has group_eq (map group_key categories) (group_key c) ≡ true)
        → all (λ c. has group_eq (shown categories) (group_key c)) cs ≡ true
    go [] within = refl
    go (c ∷ cs) within = ground (
      arith,
      group_eq-IsEquality.reflexive (group_key c),
      within c,
      in_order (group_key c),
      has-keep_if group_eq group_eq-IsEquality
          (has group_eq (keys_of group_eq group_key (categories_by_group categories))) group_order
          (group_key c),
      ap (λ (ks : List CategoryGroup). has group_eq ks (group_key c))
          (keys_of-collect group_eq group_key [] categories),
      has-add_all group_eq group_eq-IsEquality [] (map group_key categories) (group_key c),
      go cs (λ d h. within d (ground arith)),
    )

-- The rows of the card, under all of its groups together, are a permutation of the categories: each
-- of them is shown once, and no other.
pub shown_groups-Permᴰ :
    (categories : List Category) → Permᴰ (card_rows (shown_groups categories)) categories
unfolding shown_groups
shown_groups-Permᴰ categories =
    subst (λ (l : List Category). Permᴰ l categories)
      (sym (card_rows-map categories (shown categories)))
      (concat-rows_of group_eq group_key group_eq-IsEquality (shown categories) categories
        (distinct-keep_if group_eq group_eq-IsEquality
          (has group_eq (keys_of group_eq group_key (categories_by_group categories))) group_order
          refl)
        (all-shown categories))
