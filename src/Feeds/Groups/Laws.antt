-- ===== src/Feeds/Groups/Laws.antt =====
-- The groups of the feeds' table lose no row and show none twice.
use mantis_dns.Base.{
  ℕ, ◌+◌, true, not, List, [], ◌∷◌, ◌++◌, map, all, keep_if, length, length-append, ◌≡◌, refl, sym,
  ◌∙◌, ap, subst, arith, any-append,
}
use mantis_dns.Base.Text.{Text, text_eq, text_le, text_eq_refl, text_eq_sound}
use mantis_dns.Base.Sort.{sort_by, sort_by-Permᴰ}
use mantis_dns.Base.Sets.{
  IsEquality, has, set_of, distinct, has-keep_if, has-add_all, distinct-keep_if, distinct-append,
  distinct-add_all,
}
use mantis_dns.Base.Sets.Permuted.{has-Permᴰ, distinct-Permᴰ, length-Permᴰ}
use mantis_dns.Base.Groups.{concat, group_of, collect, keys_of, group_of-collect, keys_of-collect}
use mantis_dns.Base.Groups.Cover.{concat-rows_of}
use mathlib.Core.List.{Permᴰ}
use mantis_dns.Feeds.{Feed}
use mantis_dns.Feeds.Groups.{ordered_ids, category_chips, grouped_rows}

pub text_eq-IsEquality : IsEquality text_eq
text_eq-IsEquality = record { reflexive = text_eq_refl; sound = text_eq_sound }

abbrev categories_of : List Feed → List Text
categories_of feeds = set_of text_eq (map (λ f. f.category_id) feeds)

abbrev pub rows_in : List Feed → Text → List Feed
rows_in feeds id = keep_if (λ f. text_eq f.category_id id) feeds

abbrev pub grouped_in : List Feed → Text → Text × List Feed
grouped_in feeds id = (id, rows_in feeds id)

-- A category is shown exactly when it is present.
has-ordered_ids :
    (registry present : List Text) (id : Text)
    → has text_eq (ordered_ids registry present) id ≡ has text_eq present id
unfolding ordered_ids
has-ordered_ids registry present id = ground (
  arith,
  any-append (λ j. text_eq j id) (keep_if (has text_eq present) registry)
      (sort_by text_le (keep_if (λ j. not (has text_eq registry j)) present)),
  has-Permᴰ text_eq id _ _
      (sort_by-Permᴰ text_le (keep_if (λ j. not (has text_eq registry j)) present)),
  has-keep_if text_eq text_eq-IsEquality (has text_eq present) registry id,
  has-keep_if text_eq text_eq-IsEquality (λ j. not (has text_eq registry j)) present id,
)

distinct-ordered_ids :
    (registry present : List Text)
    → distinct text_eq registry ≡ true
    → distinct text_eq present ≡ true
    → distinct text_eq (ordered_ids registry present) ≡ true
unfolding ordered_ids
distinct-ordered_ids registry present d e =
    let others = keep_if (λ j. not (has text_eq registry j)) present in
    distinct-append text_eq text_eq-IsEquality (keep_if (has text_eq present) registry)
      (sort_by text_le others)
      (distinct-keep_if text_eq text_eq-IsEquality (has text_eq present) registry d)
      (distinct-Permᴰ text_eq text_eq-IsEquality _ _ (sort_by-Permᴰ text_le others)
        ∙ distinct-keep_if text_eq text_eq-IsEquality (λ j. not (has text_eq registry j)) present e)
      (λ y h. ground (
        arith,
        has-Permᴰ text_eq y _ _ (sort_by-Permᴰ text_le others),
        has-keep_if text_eq text_eq-IsEquality (has text_eq present) registry y,
        has-keep_if text_eq text_eq-IsEquality (λ j. not (has text_eq registry j)) present y,
      ))

-- The rows under the categories are, for each category that is shown, the visible rows of it in
-- their order.
pub grouped_rows-rows_in :
    (registry : List Text) (visible : List Feed)
    → grouped_rows registry visible
      ≡ map (grouped_in visible) (ordered_ids registry (categories_of visible))
unfolding grouped_rows
grouped_rows-rows_in registry visible =
    with_rows (ordered_ids registry (keys_of text_eq (λ f. f.category_id) by_category))
    ∙ ap (λ (ks : List Text). map (grouped_in visible) (ordered_ids registry ks))
        (keys_of-collect text_eq (λ f. f.category_id) [] visible)
  where
    by_category : List (Text × List Feed)
    by_category = collect text_eq (λ f. f.category_id) [] visible

    with_rows :
        (ids : List Text)
        → map {B = Text × List Feed}
            (λ id. (id, group_of text_eq (λ (f : Feed). f.category_id) by_category id))
            ids
          ≡ map (grouped_in visible) ids
    with_rows [] = refl
    with_rows (id ∷ ids) =
        rw
          (
            group_of-collect text_eq (λ f. f.category_id) text_eq-IsEquality [] visible id,
            with_rows ids,
          )
          refl

all_present :
    (registry : List Text) (feeds : List Feed)
    → all (λ f. has text_eq (ordered_ids registry (categories_of feeds)) f.category_id) feeds ≡ true
all_present registry feeds = go feeds (λ f h. h)
  where
    go :
        (fs : List Feed)
        → ((f : Feed)
            → has text_eq (map (λ f. f.category_id) fs) f.category_id ≡ true
            → has text_eq (map (λ f. f.category_id) feeds) f.category_id ≡ true)
        → all (λ f. has text_eq (ordered_ids registry (categories_of feeds)) f.category_id) fs
          ≡ true
    go [] within = refl
    go (f ∷ fs) within = ground (
      arith,
      text_eq_refl f.category_id,
      within f,
      has-ordered_ids registry (categories_of feeds) f.category_id,
      has-add_all text_eq text_eq-IsEquality [] (map (λ g. g.category_id) feeds) f.category_id,
      go fs (λ g h. within g (ground arith)),
    )

covered :
    (registry : List Text) (feeds : List Feed)
    → distinct text_eq registry ≡ true
    → Permᴰ (concat (map (rows_in feeds) (ordered_ids registry (categories_of feeds)))) feeds
covered registry feeds d =
    concat-rows_of text_eq (λ f. f.category_id) text_eq-IsEquality
      (ordered_ids registry (categories_of feeds)) feeds
      (distinct-ordered_ids registry (categories_of feeds) d
        (distinct-add_all text_eq text_eq-IsEquality [] (map (λ f. f.category_id) feeds) refl))
      (all_present registry feeds)

-- All rows that are shown, from the top.
abbrev pub all_rows : List (Text × List Feed) → List Feed
all_rows [] = []
all_rows ((id, feeds) ∷ groups) = feeds ++ all_rows groups

all_rows-map :
    (visible : List Feed) (ids : List Text)
    → all_rows (map (grouped_in visible) ids) ≡ concat (map (rows_in visible) ids)
all_rows-map visible [] = refl
all_rows-map visible (id ∷ ids) =
    ap (λ (l : List Feed). rows_in visible id ++ l) (all_rows-map visible ids)

-- The rows under all the categories together are a permutation of the visible rows: each of them is
-- shown once, and no other, where the registry names no category twice.
pub grouped_rows-Permᴰ :
    (registry : List Text) (visible : List Feed)
    → distinct text_eq registry ≡ true
    → Permᴰ (all_rows (grouped_rows registry visible)) visible
grouped_rows-Permᴰ registry visible d =
    subst (λ (l : List Feed). Permᴰ l visible)
      (sym (
        ap all_rows (grouped_rows-rows_in registry visible)
        ∙ all_rows-map visible (ordered_ids registry (categories_of visible))))
      (covered registry visible d)

-- The numbers on the chips together.
abbrev pub chip_total : List (Text × ℕ) → ℕ
chip_total [] = 0
chip_total ((id, count) ∷ chips) = count + chip_total chips

chip_total-map :
    (feeds : List Feed) (ids : List Text)
    → chip_total (map (λ id. (id, length (rows_in feeds id))) ids)
      ≡ length (concat (map (rows_in feeds) ids))
chip_total-map feeds [] = refl
chip_total-map feeds (id ∷ ids) = omega (
  arith,
  chip_total-map feeds ids,
  length-append (rows_in feeds id) (concat (map (rows_in feeds) ids)),
)

-- The numbers on the chips add up to the number of all feeds, where the registry names no category
-- twice.
pub chip_total-category_chips :
    (registry : List Text) (feeds : List Feed)
    → distinct text_eq registry ≡ true
    → chip_total (category_chips registry feeds) ≡ length feeds
unfolding category_chips
chip_total-category_chips registry feeds d =
    chip_total-map feeds (ordered_ids registry (categories_of feeds))
    ∙ length-Permᴰ _ _ (covered registry feeds d)
