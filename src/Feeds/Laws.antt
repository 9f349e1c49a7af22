-- ===== src/Feeds/Laws.antt =====
-- The rows of the feeds' table: which are shown, and in which order.
use mantis_dns.Base.{
  ℕ, zero, suc, ◌+◌, ◌*◌, Bool, true, false, not, ◌&&◌, ◌||◌, Option, none, some, List, [], ◌∷◌,
  map, any, keep_if, ◌≡◌, refl, sym, ◌∙◌, ◌↔◌, arith, leb, inl, inr, Bool-cases,
}
use mantis_dns.Base.Text.{Text, codes, is_empty, includes, lower}
use mantis_dns.Base.Text.Search.{is_upper, includes-lower}
use mantis_dns.Base.Sort.{all_apart, IsOrder, sort_by_permuted, map-sort_by}
use mathlib.Core.List.{Permᴰ}
use mantis_dns.Feeds.{
  Feed, Status, active, stale, aged, feed_status, sorted, matches_search, total_domains,
  active_feeds,
}

abbrev pub ids_of : List Feed → List Text
ids_of feeds = map (λ f. codes f.id) feeds

-- Rows keep their places: two lists of feeds with the same ids, in any order and whatever their
-- other fields, are sorted into the same order of ids, where the locale's comparison is an order
-- that tells the ids apart.
pub sorted-Permᴰ :
    (locale_le : Text → Text → Bool)
    → IsOrder locale_le
    → (xs ys : List Feed) → Permᴰ (ids_of xs) (ids_of ys)
    → all_apart locale_le (ids_of xs) ≡ true
    → ids_of (sorted locale_le xs) ≡ ids_of (sorted locale_le ys)
unfolding sorted
sorted-Permᴰ le o xs ys same apart =
    map-sort_by le (λ f. codes f.id) xs
    ∙ sort_by_permuted le o (ids_of xs) (ids_of ys) same apart
    ∙ sym (map-sort_by le (λ f. codes f.id) ys)

-- A feed whose id has a capital letter is not found by its id: the search for the id's own text
-- finds it only by its provider or its URL.
pub matches_search_own_id :
    (f : Feed)
    → any is_upper (codes f.id) ≡ true
    → matches_search (lower (codes f.id)) f ≡ (
        includes (lower f.provider) (lower (codes f.id))
        || includes (lower f.url) (lower (codes f.id)))
unfolding matches_search
matches_search_own_id f h = rw (includes-lower (codes f.id) h) refl

abbrev pub has_domains : Option ℕ → Bool
has_domains none = false
has_domains (some zero) = false
has_domains (some (suc n)) = true

-- Fetched within two intervals, or with no time of a fetch.
abbrev pub is_fresh : (Text → ℕ) → ℕ → Option Text → ℕ → Bool
is_fresh get_time now none interval = true
is_fresh get_time now (some at) interval = is_empty at || leb now (get_time at + interval * 2000)

aged-active :
    (get_time : Text → ℕ) (now : ℕ) (at : Option Text) (interval : ℕ)
    → (aged get_time now at interval ≡ active) ↔ (is_fresh get_time now at interval ≡ true)
unfolding aged
aged-active get_time now none interval = (λ e. refl, λ e. refl)
aged-active get_time now (some at) interval = ground arith

-- A feed is shown as active exactly when it is enabled, its last fetch brought at least one domain,
-- and that fetch, where its time is known, is at most two intervals old.
pub feed_status-active :
    (get_time : Text → ℕ) (now : ℕ) (f : Feed)
    → (feed_status get_time now f ≡ active) ↔ (
        (f.enabled
          && has_domains f.last_domain_count
          && is_fresh get_time now f.last_fetched_at f.interval_seconds)
        ≡ true)
unfolding feed_status
feed_status-active get_time now f =
    ground (arith, aged-active get_time now f.last_fetched_at f.interval_seconds)

-- The card of the domains counts the disabled feeds too.
pub total_domains-enabled :
    (feeds : List Feed)
    → total_domains feeds
      ≡ total_domains (keep_if (λ f. f.enabled) feeds)
        + total_domains (keep_if (λ f. not f.enabled) feeds)
unfolding total_domains
total_domains-enabled [] = refl
total_domains-enabled (f ∷ fs) = elim (Bool-cases f.enabled) [
  | inl e ↦ ground (arith, total_domains-enabled fs)
  | inr e ↦ ground (arith, total_domains-enabled fs)
]

abbrev pub counts_as_active : Status → Bool
counts_as_active active = true
counts_as_active stale = true
counts_as_active _ = false

pub active_feeds-feed_status :
    (get_time : Text → ℕ) (now : ℕ) (feeds : List Feed)
    → active_feeds feeds ≡ keep_if (λ f. counts_as_active (feed_status get_time now f)) feeds
unfolding active_feeds feed_status aged
active_feeds-feed_status get_time now [] = refl
active_feeds-feed_status get_time now (f ∷ fs) =
    ground (arith, active_feeds-feed_status get_time now fs)
