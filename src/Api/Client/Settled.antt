-- ===== src/Api/Client/Settled.antt =====
-- `Promise.allSettled` of one mutation for each element of a list, as the pages of apps/ui/src/pages
-- use it: every mutation runs, whatever becomes of the others, and the results come in the order of
-- the list. The changes to the cache are made in that order too.
use mantis_dns.Base.{
  ℕ, ◌+◌, ◌-◌, length-keep_if, true, ◌&&◌, Option, List, [], ◌∷◌, length, keep_if, all, ◌==◌, ◌≡◌,
  refl, arith,
}
use mantis_dns.Base.Json.{Json}
use mantis_dns.Base.Platform.{Platform}
use mantis_dns.Api.Outcome.{is_value}
use mantis_dns.Api.Cache.{QueryClient, IsLawful, served}
use mantis_dns.Api.Queries.{QueryHook, query_spec}
use mantis_dns.Api.Mutations.{MutationHook}
use mantis_dns.Api.Coherence.{invalidates}
use mantis_dns.Api.Client.{Window, Exchange}
use mantis_dns.Api.Client.Run.{Network, run_mutation}
use mantis_dns.Api.Client.Laws.{run_mutation-served}

-- `results.filter((r) => r.status === "fulfilled")`.
abbrev pub fulfilled : List (Exchange (Option Json)) → List (Exchange (Option Json))
fulfilled results = keep_if (λ x. is_value x.outcome) results

abbrev pub ok_count : List (Exchange (Option Json)) → ℕ
ok_count results = length (fulfilled results)

abbrev pub failed_count : List (Exchange (Option Json)) → ℕ
failed_count results = length results - ok_count results

-- Every result counts once.
pub ok_count-failed_count :
    (results : List (Exchange (Option Json)))
    → ok_count results + failed_count results ≡ length results
ok_count-failed_count results = omega (arith, length-keep_if (λ x. is_value x.outcome) results)

module _ (p : Platform) (net : Network) (w : Window) (qc : QueryClient) where
  unfoldable pub all_settled :
      List MutationHook → qc.Cache → List (Exchange (Option Json)) × qc.Cache
  all_settled [] c = ([], c)
  all_settled (m ∷ ms) c =
      let first = run_mutation p net w qc m c in
      let rest = all_settled ms first.1 in (first.0 ∷ rest.0, rest.1)

  -- One result for each mutation.
  pub length-all_settled :
      (ms : List MutationHook) (c : qc.Cache) → length (all_settled ms c).0 ≡ length ms
  unfolding all_settled
  length-all_settled [] c = refl
  length-all_settled (m ∷ ms) c =
      omega (arith, length-all_settled ms (run_mutation p net w qc m c).1)

  -- The entry of a query that each of the mutations names is still served without a refetch exactly
  -- when it was served before and none of them has succeeded.
  pub all_settled-served :
      IsLawful qc
      → (q : QueryHook) (ms : List MutationHook) (c : qc.Cache)
      → all (λ m. invalidates m q) ms ≡ true
      → served qc (all_settled ms c).1 (query_spec q).query_key
        ≡ (served qc c (query_spec q).query_key && ok_count (all_settled ms c).0 == 0)
  unfolding all_settled
  all_settled-served L q [] c h = ground arith
  all_settled-served L q (m ∷ ms) c h = ground (
    arith,
    all_settled-served L q ms (run_mutation p net w qc m c).1,
    run_mutation-served p net w qc L m q c,
  )
