-- ===== src/Feeds/BulkAdd.antt =====
-- apps/ui/src/pages/FeedsPage.tsx: the form that adds one feed for each line.
pub mod Laws
use mantis_dns.Base.{
  ℕ, String, Bool, true, false, not, ◌&&◌, ◌||◌, Option, none, some, List, [], ◌∷◌, ◌++◌, map,
  keep_if, any, length, if◌then◌else◌, ◌==◌,
}
use mantis_dns.Base.Text.{Text, codes, is_empty, trim, show}
use mantis_dns.Base.Text.Split.{split}
use mantis_dns.Base.Json.{Json}
use mantis_dns.Base.Platform.{Platform}
use mantis_dns.Api.Cache.{QueryClient}
use mantis_dns.Api.Mutations.{MutationHook, create_feed}
use mantis_dns.Api.Client.{Window, Exchange}
use mantis_dns.Api.Client.Run.{Network}
use mantis_dns.Api.Client.Settled.{all_settled, ok_count, failed_count}
use mantis_dns.Feeds.Forms.{AddForm, add_body, two_or_more}

pub record Entry : Type 0 where
  pub id : Text
  pub url : Text

-- `const [id, url] = …`, with `""` for what is missing.
abbrev pub first_two : List Text → Entry
first_two [] = record { id = []; url = [] }
first_two (id ∷ []) = record { id = id; url = [] }
first_two (id ∷ url ∷ rest) = record { id = id; url = url }

unfoldable pub parse_line : Text → Entry
unfolding split trim
parse_line line = first_two (map trim (split b',' line))

unfoldable pub parse_bulk_lines : Text → List Entry
unfolding split trim parse_line
parse_bulk_lines text =
    map parse_line (keep_if (λ line. not (is_empty line)) (map trim (split 10 text)))

pub record BulkForm : Type 0 where
  pub category_id : Text
  pub format : Text
  pub interval_seconds : ℕ
  pub provider : Text
  pub license : Text
  pub lines : Text

abbrev pub initial_bulk : BulkForm
initial_bulk = record {
  category_id = [];
  format = codes "domain-list";
  interval_seconds = 86400;
  provider = [];
  license = [];
  lines = [];
}

abbrev is_incomplete : Entry → Bool
is_incomplete e = is_empty e.id || is_empty e.url

-- `validate.lines`.
unfoldable pub lines_error : Text → Option Text
unfolding parse_bulk_lines show
lines_error v =
    let entries = parse_bulk_lines v in
    let invalid = keep_if is_incomplete entries in
    if length entries == 0
    then some (codes "Enter at least one feed")
    else if length invalid == 0
    then none
    else some (show (length invalid) ++ codes " line(s) missing \"id,url\" — one feed per line")

unfoldable pub bulk_valid : BulkForm → Bool
unfolding lines_error
bulk_valid v =
    two_or_more v.category_id && elim (lines_error v.lines) [ none ↦ true | some e ↦ false ]

-- The mutations of `handleSubmit`.
abbrev pub entry_form : BulkForm → Entry → AddForm
entry_form v e = record {
  id = e.id;
  category_id = v.category_id;
  url = e.url;
  format = v.format;
  interval_seconds = v.interval_seconds;
  provider = v.provider;
  license = v.license;
}

unfoldable pub bulk_mutations : BulkForm → List MutationHook
unfolding parse_bulk_lines add_body
bulk_mutations v = map (λ e. create_feed (add_body (entry_form v e))) (parse_bulk_lines v.lines)

pub record Notice : Type 0 where
  pub message : Text
  pub color : String

-- `${n} feed${n === 1 ? "" : "s"}`.
abbrev pub feeds_text : ℕ → Text
unfolding show
feeds_text n = show n ++ codes " feed" ++ (if n == 1 then [] else codes "s")

-- The message and the colour after a bulk operation; `tail` stands behind the number of failures.
unfoldable pub bulk_notice : Text → Text → List (Exchange (Option Json)) → Notice
unfolding show
bulk_notice done tail results = record {
  message =
      feeds_text (ok_count results)
      ++ codes " "
      ++ done
      ++ (if failed_count results == 0
          then []
          else codes ", " ++ show (failed_count results) ++ tail);
  color = if failed_count results == 0 then "green" else "yellow";
}

-- The modal: its form and whether it is open.
pub record Modal : Type 0 where
  pub form : BulkForm
  pub opened : Bool

abbrev handle_close : Modal → Modal
handle_close m = record { form = initial_bulk; opened = false }

pub record Submitted (C : Type 0) : Type 0 where
  pub results : List (Exchange (Option Json))
  pub cache : C
  pub notice : Notice
  pub modal : Modal

module _ (p : Platform) (net : Network) (w : Window) (qc : QueryClient) where
  unfoldable pub handle_submit : Modal → qc.Cache → Submitted qc.Cache
  unfolding bulk_mutations bulk_notice all_settled
  handle_submit m c =
      let settled = all_settled p net w qc (bulk_mutations m.form) c in
      record {
        results = settled.0;
        cache = settled.1;
        notice = bulk_notice (codes "added") (codes " failed (duplicate ID or bad URL?)") settled.0;
        modal = if failed_count settled.0 == 0 then handle_close m else m;
      }

  -- `form.onSubmit(handleSubmit)`: nothing where the form is not valid.
  unfoldable on_submit : Modal → qc.Cache → Option (Submitted qc.Cache)
  unfolding bulk_valid handle_submit
  on_submit m c = if bulk_valid m.form then some (handle_submit m c) else none
