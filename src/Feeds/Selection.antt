-- ===== src/Feeds/Selection.antt =====
-- apps/ui/src/pages/FeedsPage.tsx: the selected rows, and what is done with one feed or with all that
-- are selected.
pub mod Laws
pub mod Bulk
use mantis_dns.Base.{
  ℕ, String, str_eq, Bool, true, false, not, ◌&&◌, ◌||◌, Option, none, some, List, [], ◌∷◌, ◌++◌,
  map, keep_if, all, any, length, if◌then◌else◌, ◌==◌,
}
use mantis_dns.Base.Text.{Text, codes, is_empty, text_eq}
use mantis_dns.Base.Sets.{has, add, drop, add_all, drop_all}
use mantis_dns.Base.Json.{Json, bool, obj, keyed, end}
use mantis_dns.Base.Platform.{Platform}
use mantis_dns.Api.Outcome.{Outcome, value, thrown}
use mantis_dns.Api.Errors.{format_error}
use mantis_dns.Api.Cache.{QueryClient}
use mantis_dns.Api.Mutations.{MutationHook, update_feed, delete_feed, ingest_feed_now}
use mantis_dns.Api.Client.{Window, Exchange}
use mantis_dns.Api.Client.Run.{Network, run_mutation}
use mantis_dns.Api.Client.Settled.{all_settled}
use mantis_dns.Feeds.{Feed}
use mantis_dns.Feeds.BulkAdd.{Notice, bulk_notice}

unfoldable pub toggle_selected : String → List String → List String
toggle_selected id prev = if has str_eq prev id then drop str_eq prev id else add str_eq prev id

unfoldable pub set_group_selected : List String → Bool → List String → List String
set_group_selected ids select prev =
    if select then add_all str_eq prev ids else drop_all str_eq prev ids

abbrev pub all_selected : List String → List String → Bool
all_selected ids selected = all (λ id. has str_eq selected id) ids

-- The box of a category, or of the table: `checked`, `indeterminate` and `onChange`.
unfoldable pub is_checked : List String → List String → Bool
is_checked ids selected = not (length ids == 0) && all_selected ids selected

unfoldable pub is_indeterminate : List String → List String → Bool
is_indeterminate ids selected =
    any (λ id. has str_eq selected id) ids && not (all_selected ids selected)

unfoldable pub click_box : List String → List String → List String
unfolding set_group_selected
click_box ids selected = set_group_selected ids (not (all_selected ids selected)) selected

-- What the page keeps beside its modals.
pub record Page : Type 0 where
  pub selected : List String
  pub syncing_id : Option String
  pub syncing_ids : List String
  pub notices : List Notice

-- `notifications.show`.
abbrev pub notify : Notice → Page → Page
notify n page = record page { notices = page.notices ++ n ∷ [] }

abbrev enabled_body : Bool → Json
enabled_body b = obj (keyed "enabled" (bool b) end)

-- `updateFeed` of the field alone.
abbrev pub set_enabled : Bool → String → MutationHook
set_enabled enabled id = update_feed (id, enabled_body enabled)

-- `feeds.find((f) => f.id === id)?.enabled`.
abbrev pub is_enabled : List Feed → String → Bool
is_enabled [] id = false
is_enabled (f ∷ fs) id = if str_eq f.id id then f.enabled else is_enabled fs id

unfoldable pub sync_ids : List Feed → List String → List String
sync_ids feeds selected = keep_if (is_enabled feeds) selected

pub record IngestOut : Type 0 where
  pub status : Text
  pub domain_count : ℕ
  pub reason : Text

-- The message of a single ingestion; `toLocaleString` is an argument.
unfoldable ingest_notice : (ℕ → Text) → String → IngestOut → Notice
ingest_notice to_locale id r = record {
  message =
      codes id
      ++ codes ": "
      ++ r.status
      ++ codes " · "
      ++ to_locale r.domain_count
      ++ codes " domains"
      ++ (if is_empty r.reason then [] else codes " — " ++ r.reason);
  color =
      if text_eq r.status (codes "rejected") || text_eq r.status (codes "error")
      then "yellow"
      else "green";
}

abbrev error_notice : Platform → Text → Notice
error_notice p e = record { message = format_error p e; color = "red" }

module _ (p : Platform) (net : Network) (w : Window) (qc : QueryClient) where
  -- A mutation of one feed; what is shown of its value is an argument, and may be nothing.
  abbrev mutate : MutationHook → (Option Json → Option Notice) → Page × qc.Cache → Page × qc.Cache
  mutate m shown (page, c) =
      let after = run_mutation p net w qc m c in
      (
        elim after.0.outcome [
          | value v ↦ elim (shown v) [ none ↦ page | some n ↦ notify n page ]
          | thrown e ↦ notify (error_notice p e) page
        ],
        after.1,
      )

  unfoldable pub toggle_enabled : Feed → Page × qc.Cache → Page × qc.Cache
  unfolding run_mutation format_error
  toggle_enabled f s = mutate (set_enabled (not f.enabled) f.id) (λ v. none) s

  -- `ingest`, with `decode` for the fields of the answer; `onSettled` comes last.
  unfoldable pub ingest :
      (Option Json → IngestOut) → (ℕ → Text) → Feed → Page × qc.Cache → Page × qc.Cache
  unfolding run_mutation format_error ingest_notice
  ingest decode to_locale f (page, c) =
      let after =
        mutate (ingest_feed_now f.id) (λ v. some (ingest_notice to_locale f.id (decode v)))
          (record page { syncing_id = some f.id }, c) in
      (record (after.0) { syncing_id = none }, after.1)

  -- `onConfirm` of `confirmDelete`.
  unfoldable pub confirm_delete : Feed → Page × qc.Cache → Page × qc.Cache
  unfolding run_mutation format_error
  confirm_delete f s =
      mutate (delete_feed f.id)
        (λ v. some (record {
          message = codes "Feed \"" ++ codes f.id ++ codes "\" deleted";
          color = "green";
        }))
        s

  -- One mutation for each id, and the message after all of them.
  unfoldable pub run_bulk :
      (String → MutationHook)
      → Text
      → List String
      → Page × qc.Cache
      → List (Exchange (Option Json)) × Page × qc.Cache
  unfolding all_settled bulk_notice
  run_bulk mutation done ids (page, c) =
      let settled = all_settled p net w qc (map mutation ids) c in
      (settled.0, notify (bulk_notice done (codes " failed") settled.0) page, settled.1)

  abbrev clear : Page → Page
  clear page = record page { selected = [] }

  unfoldable pub bulk_set_enabled :
      Bool → Page × qc.Cache → List (Exchange (Option Json)) × Page × qc.Cache
  unfolding run_bulk
  bulk_set_enabled enabled (page, c) =
      let (results, after, last) =
        run_bulk (set_enabled enabled) (if enabled then codes "enabled" else codes "disabled")
          page.selected (page, c) in
      (results, clear after, last)

  -- `onConfirm` of `bulkDelete`; the ids are those that were selected when the dialog was opened.
  unfoldable pub bulk_delete :
      List String → Page × qc.Cache → List (Exchange (Option Json)) × Page × qc.Cache
  unfolding run_bulk
  bulk_delete ids (page, c) =
      let (results, after, last) = run_bulk delete_feed (codes "deleted") ids (page, c) in
      (results, clear after, last)

  unfoldable pub bulk_sync :
      List Feed → Page × qc.Cache → List (Exchange (Option Json)) × Page × qc.Cache
  unfolding run_bulk sync_ids
  bulk_sync feeds (page, c) =
      let ids = sync_ids feeds page.selected in
      let (results, after, last) =
        run_bulk ingest_feed_now (codes "synced") ids (record page { syncing_ids = ids }, c) in
      if length ids == 0
      then (
        [],
        notify (record { message = codes "No enabled feeds selected"; color = "yellow" }) page,
        c,
      )
      else (results, record after { syncing_ids = [] }, last)
