-- ===== src/Feeds/Selection/Bulk.antt =====
-- The operations on all selected feeds: every one of them is tried, counted and told of.
use mantis_dns.Base.{
  ◌+◌, Bool, true, ◌&&◌, List, [], ◌∷◌, map, all, length, length-map, ◌==◌, ◌≡◌, refl, ◌∙◌, arith,
  Bool-cases, inl, inr, String, str_eq, eq_iff, ap, any, false, keep_if,
}
use mantis_dns.Base.Sets.{has, distinct}
use mantis_dns.Base.Platform.{Platform}
use mantis_dns.Api.Cache.{QueryClient, IsLawful, served}
use mantis_dns.Api.Queries.{query_spec, feeds}
use mantis_dns.Api.Mutations.{MutationHook, effects, delete_feed, ingest_feed_now}
use mantis_dns.Api.Coherence.{invalidates}
use mantis_dns.Api.Client.{Window}
use mantis_dns.Api.Client.Run.{Network}
use mantis_dns.Api.Client.Settled.{
  all_settled, ok_count, failed_count, ok_count-failed_count, length-all_settled,
  all_settled-served,
}
use mantis_dns.Feeds.{Feed}
use mantis_dns.Feeds.Selection.{
  Page, set_enabled, is_enabled, sync_ids, run_bulk, bulk_set_enabled, bulk_delete, bulk_sync,
}

all_invalidate :
    (mutation : String → MutationHook)
    → ((id : String) → invalidates (mutation id) feeds ≡ true)
    → (ids : List String) → all (λ m. invalidates m feeds) (map mutation ids) ≡ true
all_invalidate mutation h [] = refl
all_invalidate mutation h (id ∷ ids) = rw (h id) (all_invalidate mutation h ids)

abbrev pub feed_id : Feed → String
feed_id f = f.id

-- Some row has the id and is enabled.
abbrev pub has_enabled : List Feed → String → Bool
has_enabled rows id = any (λ f. str_eq f.id id && f.enabled) rows

absent :
    (rows : List Feed) (id : String)
    → has str_eq (map feed_id rows) id ≡ false
    → has_enabled rows id ≡ false
absent [] id h = refl
absent (f ∷ rows) id h = ground (arith, absent rows id)

is_enabled-has_enabled :
    (rows : List Feed) (id : String)
    → distinct str_eq (map feed_id rows) ≡ true
    → is_enabled rows id ≡ has_enabled rows id
is_enabled-has_enabled [] id d = refl
is_enabled-has_enabled (f ∷ rows) id d = elim (Bool-cases (str_eq f.id id)) [
  | inl e ↦
      ground (arith, absent rows id, ap (has str_eq (map feed_id rows)) ((eq_iff f.id id).0 e))
  | inr e ↦ ground (arith, is_enabled-has_enabled rows id)
]

sync_ids-has_enabled :
    (rows : List Feed) (selected : List String)
    → distinct str_eq (map feed_id rows) ≡ true
    → sync_ids rows selected ≡ keep_if (has_enabled rows) selected
unfolding sync_ids
sync_ids-has_enabled rows [] d = refl
sync_ids-has_enabled rows (id ∷ ids) d =
    rw (is_enabled-has_enabled rows id d, sync_ids-has_enabled rows ids d) refl

none_synced :
    (p : Platform) (net : Network) (w : Window) (qc : QueryClient) (ids : List String)
    (c : qc.Cache)
    → (length ids == 0) ≡ true
    → [] ≡ (all_settled p net w qc (map ingest_feed_now ids) c).0
unfolding all_settled
none_synced p net w qc [] c h = refl
none_synced p net w qc (id ∷ ids) c h = ground arith

module _ (p : Platform) (net : Network) (w : Window) (qc : QueryClient) (L : IsLawful qc) where
  run_bulk-settled :
      (mutation : String → MutationHook)
      → ((id : String) → invalidates (mutation id) feeds ≡ true)
      → (ids : List String) (c : qc.Cache)
      → let settled = all_settled p net w qc (map mutation ids) c in
        (ok_count settled.0 + failed_count settled.0 ≡ length ids)
        × (served qc settled.1 (query_spec feeds).query_key
            ≡ (served qc c (query_spec feeds).query_key && ok_count settled.0 == 0))
  run_bulk-settled mutation h ids c = (
    ok_count-failed_count (all_settled p net w qc (map mutation ids) c).0
        ∙ length-all_settled p net w qc (map mutation ids) c
        ∙ length-map mutation ids,
    all_settled-served p net w qc L feeds (map mutation ids) c (all_invalidate mutation h ids),
  )

  -- The deletion of some feeds counts each of them as deleted or as failed, leaves nothing
  -- selected, and leaves the list of feeds in the cache as it was served before exactly if none has
  -- been deleted.
  pub bulk_delete-settled :
      (ids : List String) (page : Page) (c : qc.Cache)
      → let (results, after, last) = bulk_delete p net w qc ids (page, c) in
        (ok_count results + failed_count results ≡ length ids)
        × (after.selected ≡ [])
        × (served qc last (query_spec feeds).query_key
            ≡ (served qc c (query_spec feeds).query_key && ok_count results == 0))
  unfolding bulk_delete run_bulk effects query_spec
  bulk_delete-settled ids page c =
      let (counted, cached) = run_bulk-settled delete_feed (λ id. refl) ids c in
      (counted, refl, cached)

  pub bulk_set_enabled-settled :
      (enabled : Bool) (page : Page) (c : qc.Cache)
      → let (results, after, last) = bulk_set_enabled p net w qc enabled (page, c) in
        (ok_count results + failed_count results ≡ length page.selected)
        × (after.selected ≡ [])
        × (served qc last (query_spec feeds).query_key
            ≡ (served qc c (query_spec feeds).query_key && ok_count results == 0))
  unfolding bulk_set_enabled run_bulk effects query_spec
  bulk_set_enabled-settled enabled page c =
      let (counted, cached) = run_bulk-settled (set_enabled enabled) (λ id. refl) page.selected c in
      (counted, refl, cached)

  -- The synchronisation, where the rows have different ids, asks for the ingestion of the selected feeds
  -- that have an enabled row, in their order, and of no others: each of them counts as synchronised or
  -- as failed; the selection stays, and no row is left as being synchronised; and the list of feeds in
  -- the cache is served as before exactly if none has been synchronised.
  pub bulk_sync-settled :
      (rows : List Feed) (page : Page) (c : qc.Cache)
      → distinct str_eq (map feed_id rows) ≡ true
      → page.syncing_ids ≡ []
      → let (results, after, last) = bulk_sync p net w qc rows (page, c) in
        let ids = keep_if (has_enabled rows) page.selected in
        (results ≡ (all_settled p net w qc (map ingest_feed_now ids) c).0)
        × (ok_count results + failed_count results ≡ length ids)
        × (after.selected ≡ page.selected)
        × (after.syncing_ids ≡ [])
        × (served qc last (query_spec feeds).query_key
            ≡ (served qc c (query_spec feeds).query_key && ok_count results == 0))
  unfolding bulk_sync run_bulk effects query_spec
  bulk_sync-settled rows page c d idle =
      let (counted, cached) =
        run_bulk-settled ingest_feed_now (λ id. refl) (keep_if (has_enabled rows) page.selected)
          c in
      rw (sync_ids-has_enabled rows page.selected d)
        (elim (Bool-cases (length (keep_if (has_enabled rows) page.selected) == 0)) [
          | inl e ↦ rw e (
            none_synced p net w qc (keep_if (has_enabled rows) page.selected) c e,
            ground arith,
            refl,
            idle,
            ground arith,
          )
          | inr e ↦ rw e (refl, counted, refl, refl, cached)
        ])
