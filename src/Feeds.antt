-- ===== src/Feeds.antt =====
-- apps/ui/src/pages/FeedsPage.tsx: the rows of the table.
pub mod Laws
pub mod Groups
pub mod Forms
pub mod BulkAdd
pub mod Selection
use mantis_dns.Base.{
  ℕ, zero, suc, ◌+◌, ◌*◌, String, Bool, true, false, not, ◌&&◌, ◌||◌, Option, none, some, List, [],
  ◌∷◌, keep_if, if◌then◌else◌, ltb,
}
use mantis_dns.Base.Text.{Text, codes, is_empty, text_eq, includes, lower}
use mantis_dns.Base.Sort.{sort_by}

-- `FeedOut`, less what the page does not read.
pub record Feed : Type 0 where
  pub id : String
  pub category_id : Text
  pub url : Text
  pub format : Text
  pub interval_seconds : ℕ
  pub license : Text
  pub provider : Text
  pub from_catalog : Bool
  pub enabled : Bool
  pub last_domain_count : Option ℕ
  pub last_fetched_at : Option Text

pub data Status : Type 0 where
  disabled pending empty stale active : Status

-- The last tests of `feedStatus`, in milliseconds: `getTime` and `Date.now()` are arguments.
unfoldable aged : (Text → ℕ) → ℕ → Option Text → ℕ → Status
aged get_time now none interval = active
aged get_time now (some at) interval =
    if not (is_empty at) && ltb (get_time at + interval * 2000) now then stale else active

unfoldable pub feed_status : (Text → ℕ) → ℕ → Feed → Status
unfolding aged
feed_status get_time now f = if not f.enabled then disabled else elim f.last_domain_count [
  | none ↦ pending
  | some zero ↦ empty
  | some (suc n) ↦ aged get_time now f.last_fetched_at f.interval_seconds
]

-- The label and the colour that the page shows.
abbrev status_shown : Status → String × String
status_shown disabled = ("Disabled", "gray")
status_shown pending = ("Pending", "yellow")
status_shown empty = ("Empty", "orange")
status_shown stale = ("Stale", "orange")
status_shown active = ("Active", "green")

-- The filters in the URL.
pub record Filters : Type 0 where
  pub search : Text
  pub category : Text
  pub status : Text

-- `a.id.localeCompare(b.id) <= 0`.
abbrev pub by_id : (Text → Text → Bool) → Feed → Feed → Bool
by_id locale_le a b = locale_le (codes a.id) (codes b.id)

unfoldable pub sorted : (Text → Text → Bool) → List Feed → List Feed
sorted locale_le feeds = sort_by (by_id locale_le) feeds

-- The test of the search box, where `q` is in lower case.
unfoldable pub matches_search : Text → Feed → Bool
unfolding lower
matches_search q f =
    includes (codes f.id) q || includes (lower f.provider) q || includes (lower f.url) q

unfoldable pub is_visible : Filters → Feed → Bool
unfolding matches_search
is_visible filters f =
    if not (is_empty filters.search) && not (matches_search (lower filters.search) f)
    then false
    else if not (is_empty filters.category) && not (text_eq f.category_id filters.category)
    then false
    else if text_eq filters.status (codes "active") && not f.enabled
    then false
    else if text_eq filters.status (codes "disabled") && f.enabled
    then false
    else true

unfoldable pub visible : (Text → Text → Bool) → Filters → List Feed → List Feed
visible locale_le filters feeds = keep_if (is_visible filters) (sorted locale_le feeds)

abbrev pub domain_count : Feed → ℕ
domain_count f = elim f.last_domain_count [ none ↦ 0 | some n ↦ n ]

-- The cards.
unfoldable pub total_domains : List Feed → ℕ
total_domains [] = 0
total_domains (f ∷ fs) = domain_count f + total_domains fs

unfoldable pub active_feeds : List Feed → List Feed
active_feeds feeds = keep_if (λ f. f.enabled && ltb 0 (domain_count f)) feeds
