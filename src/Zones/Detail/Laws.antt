-- ===== src/Zones/Detail/Laws.antt =====
-- The deletion of a zone from its own page.
use mantis_dns.Base.{String, Bool, true, false, not, ◌&&◌, Option, none, some, ◌≡◌, refl}
use mantis_dns.Base.Json.{Json}
use mantis_dns.Base.Platform.{Platform}
use mantis_dns.Api.Outcome.{Outcome, value, thrown, is_value}
use mantis_dns.Api.Cache.{QueryClient, IsLawful, served}
use mantis_dns.Api.Queries.{QueryHook, query_spec}
use mantis_dns.Api.Mutations.{delete_zone}
use mantis_dns.Api.Coherence.{invalidates}
use mantis_dns.Api.Client.{Window}
use mantis_dns.Api.Client.Run.{Network, run_mutation}
use mantis_dns.Api.Client.Laws.{run_mutation-served}
use mantis_dns.Base.Text.{Text}
use mantis_dns.Zones.Detail.{delete_zone_confirmed, left}

abbrev is_left : Option Text → Bool
is_left none = false
is_left (some path) = true

module _ (p : Platform) (net : Network) (w : Window) (qc : QueryClient) where
  left-value : (o : Outcome (Option Json)) → is_left (left p net w qc o) ≡ is_value o
  left-value (value answer) = refl
  left-value (thrown e) = refl

  -- The page of a zone is left exactly if the deletion of the zone has succeeded, and the
  -- entries of the cache that are still served are those that were served before, less, if it has
  -- succeeded, those that the deletion names.
  delete_zone_confirmed-served :
      IsLawful qc
      → (zone_id : String) (c : qc.Cache) (q : QueryHook)
      → let (x, notice, path, last) = delete_zone_confirmed p net w qc zone_id c in
        (is_left path ≡ is_value x.outcome)
        × (served qc last (query_spec q).query_key ≡ (
            served qc c (query_spec q).query_key
            && not (is_value x.outcome && invalidates (delete_zone zone_id) q)))
  unfolding delete_zone_confirmed
  delete_zone_confirmed-served L zone_id c q = (
    left-value (run_mutation p net w qc (delete_zone zone_id) c).0.outcome,
    run_mutation-served p net w qc L (delete_zone zone_id) q c,
  )
