-- ===== src/Zones/Detail.antt =====
-- apps/ui/src/pages/ZoneDetailPage.tsx: the page of one zone, its tab of records, and the deletions.
pub mod Laws
use mantis_dns.Base.{
  ℕ, ◌≤◌, String, Bool, true, false, not, ◌&&◌, Option, none, some, List, [], ◌∷◌, ◌++◌, keep_if,
  length, if◌then◌else◌, ◌==◌,
}
use mantis_dns.Base.Text.{Text, codes, show, text_eq}
use mantis_dns.Base.Json.{Json}
use mantis_dns.Base.Platform.{Platform}
use mantis_dns.Api.Outcome.{Outcome, value, thrown}
use mantis_dns.Api.Errors.{format_error}
use mantis_dns.Api.Cache.{QueryClient}
use mantis_dns.Api.Mutations.{delete_zone, delete_record}
use mantis_dns.Api.Client.{Window, Exchange, is_ok}
use mantis_dns.Api.Client.Run.{Network, run_mutation}
use mantis_dns.Forms.CrudTab.{Notice, done, failed}
use mantis_dns.Zones.{Zone}
use mantis_dns.Zones.Records.{DnsRecord}

-- What the page shows; the query's `data` is `none` until it has one.
pub data View : Type 0 where
  loader not_found : View
  -- The notice of a passthrough zone, or the tab of the records.
  bypassed : Zone → View
  records : Zone → View

unfoldable pub zone_view : Bool → Option Zone → View
zone_view is_loading zone = if is_loading then loader else elim zone [
  | none ↦ not_found
  | some z ↦ if text_eq z.zone_type (codes "passthrough") then bypassed z else records z
]

pub record RecordsTab : Type 0 where
  pub show_modal : Bool
  pub edit_record : Option DnsRecord
  pub notices : List Notice

-- The numbers of records above the table: all of them, and the enabled ones.
unfoldable pub record_counts : List DnsRecord → ℕ × ℕ
record_counts rs = (length rs, length (keep_if (λ r. r.enabled) rs))

-- `handleExport`, with the answer's status: an error is told, and else a file is downloaded.
unfoldable pub handle_export : Zone → ℕ → RecordsTab → RecordsTab × Option Text
handle_export z status tab = if is_ok status then (tab, some (z.name ++ codes ".zone")) else (
  record tab { notices = tab.notices ++ failed (codes "Export failed: " ++ show status) ∷ [] },
  none,
)

module _ (p : Platform) (net : Network) (w : Window) (qc : QueryClient) where
  abbrev pub told : Text → Outcome (Option Json) → Notice
  told message (value answer) = done message
  told message (thrown e) = failed (format_error p e)

  -- `onConfirm` of the deletion of a record.
  unfoldable pub delete_record_confirmed :
      String → DnsRecord → RecordsTab → qc.Cache → Exchange (Option Json) × RecordsTab × qc.Cache
  unfolding run_mutation
  delete_record_confirmed zone_id r tab c =
      let after = run_mutation p net w qc (delete_record zone_id r.id) c in
      (
        after.0,
        record tab { notices = tab.notices ++ told (codes "Record deleted") after.0.outcome ∷ [] },
        after.1,
      )

  abbrev left : Outcome (Option Json) → Option Text
  left (value answer) = some (codes "/zones")
  left (thrown e) = none

  -- `onConfirm` of the deletion of the zone: what is told, and the page that is gone to.
  unfoldable pub delete_zone_confirmed :
      String → qc.Cache → Exchange (Option Json) × Notice × Option Text × qc.Cache
  unfolding run_mutation
  delete_zone_confirmed zone_id c =
      let after = run_mutation p net w qc (delete_zone zone_id) c in
      (after.0, told (codes "Zone deleted") after.0.outcome, left after.0.outcome, after.1)
