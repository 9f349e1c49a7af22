-- ===== src/Tests/Feeds.antt =====
-- The feeds' page at concrete inputs.
use mantis_dns.Base.{
  arith, Bool, ◌+◌, true, false, not, ◌&&◌, none, some, List, [], ◌∷◌, map, length, ◌≡◌, refl, ◌==◌,
  leb, keep_if,
}
use mantis_dns.Base.Text.{Text, codes, join}
use mantis_dns.Base.Sort.{IsOrder}
use mathlib.Core.List.{Permᴰ}
use mantis_dns.Api.Cache.{served}
use mantis_dns.Api.Cache.Memory.{memory_client, memory_client-IsLawful}
use mantis_dns.Api.Queries.{query_spec, feeds}
use mantis_dns.Api.Mutations.{ingest_feed_now}
use mantis_dns.Api.Request.{word, KeyPart}
use mantis_dns.Api.Client.Settled.{all_settled, ok_count, failed_count}
use mantis_dns.Feeds.{Feed}
use mantis_dns.Feeds.Groups.{grouped_rows}
use mantis_dns.Feeds.Groups.Laws.{all_rows, grouped_rows-Permᴰ}
use mantis_dns.Feeds.BulkAdd.{Entry, parse_bulk_lines, Modal, initial_bulk, handle_submit}
use mantis_dns.Feeds.BulkAdd.Laws.{line_of, read_back, parse_bulk_lines-join, handle_submit-settled}
use mantis_dns.Feeds.Selection.{Page, bulk_sync}
use mantis_dns.Feeds.Selection.Bulk.{has_enabled, bulk_sync-settled}
use mantis_dns.Tests.Fixtures.{platform, page, accepting}

abbrev malware : Feed
malware = record {
  id = "Acme-malware";
  category_id = codes "malware";
  url = codes "https://example.com/m.txt";
  format = codes "domain-list";
  interval_seconds = 3600;
  license = codes "MIT";
  provider = codes "none";
  from_catalog = false;
  enabled = true;
  last_domain_count = some 12;
  last_fetched_at = none;
}

abbrev adult : Feed
adult = record malware {
  id = "b-adult";
  category_id = codes "adult";
  enabled = false;
  last_domain_count = some 5;
}

abbrev rows : List Feed
rows = malware ∷ adult ∷ malware ∷ []

-- A comparison that is an order, and tells texts of different lengths apart.
abbrev by_length : Text → Text → Bool
by_length s t = leb (length s) (length t)

by_length-IsOrder : IsOrder by_length
by_length-IsOrder = record { total = λ s t h. ground arith; transitive = λ s t u h k. ground arith }

grouped_rows-Permᴰ_example :
    Permᴰ (all_rows (grouped_rows (codes "adult" ∷ codes "porn" ∷ []) rows)) rows
grouped_rows-Permᴰ_example = grouped_rows-Permᴰ (codes "adult" ∷ codes "porn" ∷ []) rows refl

abbrev entries : List Entry
entries =
    record { id = codes "a1"; url = codes "https://example.com/1.txt" }
    ∷ record { id = codes "a2"; url = codes "https://example.com/l?c=x,y" }
    ∷ []

parse_bulk_lines-join_example :
    parse_bulk_lines (join (10 ∷ []) (map line_of entries)) ≡ map read_back entries
parse_bulk_lines-join_example = parse_bulk_lines-join entries refl

abbrev modal : Modal
modal = record {
  form = record initial_bulk { category_id = codes "malware"; lines = codes "a1,https://e.com/1" };
  opened = true;
}

abbrev cached : List (List KeyPart × Bool)
cached = (word "feeds" ∷ [], false) ∷ []

handle_submit-settled_example :
    let s = handle_submit platform accepting page memory_client modal cached in
    (ok_count s.results + failed_count s.results ≡ length (parse_bulk_lines modal.form.lines))
    × (s.modal.opened ≡ not (failed_count s.results == 0))
    × (served memory_client s.cache (query_spec feeds).query_key
        ≡ (served memory_client cached (query_spec feeds).query_key && ok_count s.results == 0))
handle_submit-settled_example =
    handle_submit-settled platform accepting page memory_client memory_client-IsLawful modal cached
      refl

abbrev state : Page
state = record {
  selected = "Acme-malware" ∷ "b-adult" ∷ [];
  syncing_id = none;
  syncing_ids = [];
  notices = [];
}

abbrev two_rows : List Feed
two_rows = malware ∷ adult ∷ []

bulk_sync-settled_example :
    let (results, after, last) =
      bulk_sync platform accepting page memory_client two_rows (state, cached) in
    let ids = keep_if (has_enabled two_rows) state.selected in
    (results
      ≡ (all_settled platform accepting page memory_client (map ingest_feed_now ids) cached).0)
    × (ok_count results + failed_count results ≡ length ids)
    × (after.selected ≡ state.selected)
    × (after.syncing_ids ≡ [])
    × (served memory_client last (query_spec feeds).query_key
        ≡ (served memory_client cached (query_spec feeds).query_key && ok_count results == 0))
bulk_sync-settled_example =
    bulk_sync-settled platform accepting page memory_client memory_client-IsLawful two_rows state
      cached refl refl
