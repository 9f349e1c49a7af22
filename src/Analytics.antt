-- ===== src/Analytics.antt =====
-- apps/ui/src/pages/AnalyticsPage.tsx: what the page makes of the answers of its three queries.
pub mod Laws
use mantis_dns.Base.{
  ℕ, ◌*◌, Bool, true, false, not, ◌&&◌, ◌||◌, Option, none, some, List, [], ◌∷◌, ◌++◌, keep_if,
  length, if◌then◌else◌, ◌==◌, leb, ltb,
}
use mantis_dns.Base.Sort.{sort_by}
use mantis_dns.Base.Sort.Top.{take_first}
use mantis_dns.Base.Text.{Text, codes, show}

pub record TopDomain : Type 0 where
  pub qname : Text
  pub decision : Text
  pub count : ℕ

-- `AnalyticsSummary`, less the ratios.
pub record Summary : Type 0 where
  pub total_queries : ℕ
  pub blocked_queries : ℕ
  pub allowed_queries : ℕ
  pub tenant_count : ℕ
  pub group_count : ℕ
  pub top_blocked_domains : List TopDomain

pub record GroupRow : Type 0 where
  pub group_id : Text
  pub total : ℕ
  pub blocked : ℕ

-- `TIME_RANGES`.
abbrev time_ranges : List (ℕ × Text)
time_ranges =
    (1, codes "1h")
    ∷ (6, codes "6h")
    ∷ (24, codes "24h")
    ∷ (168, codes "7d")
    ∷ (720, codes "30d")
    ∷ []

abbrev label_in : List (ℕ × Text) → ℕ → Text
label_in [] hours = show hours ++ codes "h"
label_in ((h, label) ∷ ranges) hours = if h == hours then label else label_in ranges hours

-- `TIME_RANGES.find((r) => r.hours === hours)?.label ?? …`.
unfoldable range_label : ℕ → Text
range_label hours = label_in time_ranges hours

abbrev pub more_first : TopDomain → TopDomain → Bool
more_first a b = leb b.count a.count

-- `topDomains`.
unfoldable pub top_domains : List TopDomain → List TopDomain
top_domains domains = take_first 10 (sort_by more_first domains)

abbrev larger_first : GroupRow → GroupRow → Bool
larger_first a b = leb b.total a.total

-- `sortedGroups`.
unfoldable sorted_groups : List GroupRow → List GroupRow
sorted_groups groups = sort_by larger_first groups

-- `donutData`: the names and the values.
unfoldable donut_data : Summary → List (Text × ℕ)
donut_data s =
    keep_if {A = Text × ℕ} (λ d. ltb 0 d.1)
      ((codes "Allowed", s.allowed_queries) ∷ (codes "Blocked", s.blocked_queries) ∷ [])

abbrev any_traffic : List (ℕ × ℕ) → Bool
any_traffic [] = false
any_traffic ((allowed, blocked) ∷ points) = ltb 0 allowed || ltb 0 blocked || any_traffic points

-- `hasChart`, over the allowed and the blocked queries of each point.
unfoldable has_chart : List (ℕ × ℕ) → Bool
has_chart points = any_traffic points

abbrev plural : ℕ → Text → Text
plural n noun = show n ++ codes " " ++ noun ++ (if n == 1 then [] else codes "s")

-- The line under the total.
unfoldable scope_line : Summary → Text
scope_line s =
    plural s.tenant_count (codes "tenant") ++ codes " · " ++ plural s.group_count (codes "group")
