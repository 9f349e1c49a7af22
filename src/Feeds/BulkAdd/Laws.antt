-- ===== src/Feeds/BulkAdd/Laws.antt =====
-- The lines of the form read as entries, and what its submission does.
use mantis_dns.Base.{
  ℕ, ◌+◌, Bool, true, false, not, ◌&&◌, List, [], ◌∷◌, ◌++◌, map, all, all-append, keep_if, length,
  length-map, append_assoc, ◌≡◌, refl, ◌∙◌, ap, arith, &&_true, if◌then◌else◌, ◌==◌,
}
use mantis_dns.Base.Text.{Text, codes, is_empty, is_space, join, trim}
use mantis_dns.Base.Text.Split.{
  in_front, split, is_free, is_spaceless, split-free, split-join, trim-spaceless,
}
use mantis_dns.Base.Platform.{Platform}
use mantis_dns.Api.Cache.{QueryClient, IsLawful, served}
use mantis_dns.Api.Queries.{query_spec, feeds}
use mantis_dns.Api.Mutations.{create_feed, effects}
use mantis_dns.Api.Coherence.{invalidates}
use mantis_dns.Api.Client.{Window}
use mantis_dns.Api.Client.Run.{Network}
use mantis_dns.Api.Client.Settled.{
  all_settled, ok_count, failed_count, ok_count-failed_count, length-all_settled,
  all_settled-served,
}
use mantis_dns.Feeds.Forms.{add_body}
use mantis_dns.Feeds.BulkAdd.{
  BulkForm, entry_form, Modal, initial_bulk, bulk_mutations, handle_submit, Entry, parse_line,
  parse_bulk_lines, first_two,
}

-- An entry written as a line.
abbrev pub line_of : Entry → Text
line_of e = e.id ++ codes "," ++ e.url

abbrev pub up_to_comma : Text → Text
up_to_comma [] = []
up_to_comma (c ∷ s) = let rest = up_to_comma s in if c == b',' then [] else c ∷ rest

-- An id has no comma, and neither it nor the URL has white space.
abbrev pub is_writable : Entry → Bool
is_writable e = is_free b',' e.id && is_spaceless e.id && is_spaceless e.url

spaceless-line_of : (e : Entry) → is_writable e ≡ true → is_spaceless (line_of e) ≡ true
spaceless-line_of e h = ground (
  arith,
  all-append (λ c. not (is_space c)) (e.id ++ codes ",") e.url,
  all-append (λ c. not (is_space c)) e.id (codes ","),
)

-- A line break is white space.
free-spaceless : (s : Text) → is_spaceless s ≡ true → is_free 10 s ≡ true
free-spaceless [] h = refl
free-spaceless (c ∷ s) h =
    let (full, more) = &&_true (not (is_space c)) (is_spaceless s) h in
    ground (arith, free-spaceless s more, no_break c full)
  where
    no_break : (c : ℕ) → not (is_space c) ≡ true → (c == 10) ≡ false
    no_break c h = ground arith

split-up_to_comma : (s : Text) → (rest : List Text) × (split b',' s ≡ up_to_comma s ∷ rest)
unfolding split
split-up_to_comma [] = ([], refl)
split-up_to_comma (c ∷ s) = let (rest, e) = split-up_to_comma s in go (c == b',') rest e
  where
    go :
        (b : Bool) (rest : List Text)
        → split b',' s ≡ up_to_comma s ∷ rest
        → (more : List Text) × ((if b then [] ∷ split b',' s else in_front c (split b',' s))
            ≡ (if b then [] else c ∷ up_to_comma s) ∷ more)
    go true rest e = (split b',' s, refl)
    go false rest e = (rest, ap (in_front c) e)

spaceless-up_to_comma : (s : Text) → is_spaceless s ≡ true → is_spaceless (up_to_comma s) ≡ true
spaceless-up_to_comma [] h = refl
spaceless-up_to_comma (c ∷ s) h =
    let (full, more) = &&_true (not (is_space c)) (is_spaceless s) h in
    go (c == b',') full (spaceless-up_to_comma s more)
  where
    go :
        (b : Bool)
        → not (is_space c) ≡ true
        → is_spaceless (up_to_comma s) ≡ true
        → is_spaceless (if b then [] else c ∷ up_to_comma s) ≡ true
    go true full rest = refl
    go false full rest = rw full rest

-- What the line of an entry is read as: its URL ends before its first comma.
abbrev pub read_back : Entry → Entry
read_back e = record { id = e.id; url = up_to_comma e.url }

parse_line-line_of : (e : Entry) → is_writable e ≡ true → parse_line (line_of e) ≡ read_back e
unfolding parse_line
parse_line-line_of e h =
    let (ids, url) = &&_true (is_free b',' e.id && is_spaceless e.id) (is_spaceless e.url) h in
    let (free, spaceless) = &&_true (is_free b',' e.id) (is_spaceless e.id) ids in
    let (rest, cut) = split-up_to_comma e.url in
    ap (λ (t : Text). first_two (map trim (split b',' t))) (append_assoc e.id (codes ",") e.url)
    ∙ ap (λ (ts : List Text). first_two (map trim ts))
        (split-free b',' e.id e.url free ∙ ap (◌∷◌ e.id) cut)
    ∙ rw
        (
          trim-spaceless e.id spaceless,
          trim-spaceless (up_to_comma e.url) (spaceless-up_to_comma e.url url),
        )
        refl

line_of-full : (e : Entry) → is_empty (line_of e) ≡ false
line_of-full e = go e.id
  where
    go : (s : Text) → is_empty (s ++ codes "," ++ e.url) ≡ false
    go [] = refl
    go (c ∷ s) = refl

free-lines :
    (es : List Entry) → all is_writable es ≡ true → all (is_free 10) (map line_of es) ≡ true
free-lines [] h = refl
free-lines (e ∷ es) h =
    let (first, others) = &&_true (is_writable e) (all is_writable es) h in
    rw (free-spaceless (line_of e) (spaceless-line_of e first)) (free-lines es others)

read-lines :
    (es : List Entry)
    → all is_writable es ≡ true
    → map parse_line (keep_if (λ line. not (is_empty line)) (map trim (map line_of es)))
      ≡ map read_back es
read-lines [] h = refl
read-lines (e ∷ es) h =
    let (first, others) = &&_true (is_writable e) (all is_writable es) h in
    rw
      (
        trim-spaceless (line_of e) (spaceless-line_of e first),
        line_of-full e,
        parse_line-line_of e first,
        read-lines es others,
      )
      refl

no_lines : parse_bulk_lines [] ≡ []
unfolding parse_bulk_lines
no_lines = refl

-- Entries written one to a line, as `id,url`, are read back in their order with their ids, and with
-- each URL up to its first comma, where no id has a comma and no id and no URL has white space. A
-- URL without a comma so is read back whole, and the rest of one with a comma is lost.
pub parse_bulk_lines-join :
    (es : List Entry)
    → all is_writable es ≡ true
    → parse_bulk_lines (join (10 ∷ []) (map line_of es)) ≡ map read_back es
unfolding parse_bulk_lines join
parse_bulk_lines-join [] h = no_lines
parse_bulk_lines-join (e ∷ es) h =
    ap (λ (ts : List Text). map parse_line (keep_if (λ line. not (is_empty line)) (map trim ts)))
      (split-join 10 (line_of e) (map line_of es) (free-lines (e ∷ es) h))
    ∙ read-lines (e ∷ es) h

feed_creations :
    (v : BulkForm) (es : List Entry)
    → all (λ m. invalidates m feeds) (map (λ e. create_feed (add_body (entry_form v e))) es) ≡ true
unfolding effects query_spec
feed_creations v [] = refl
feed_creations v (e ∷ es) = feed_creations v es

-- After the submission of the open form every line has been answered and counts as added or as
-- failed; the modal is closed exactly when none has failed; and the list of feeds in the cache is
-- still served without a refetch exactly if it was before and no feed has been added.
pub handle_submit-settled :
    (p : Platform) (net : Network) (w : Window) (qc : QueryClient)
    → IsLawful qc
    → (m : Modal) (c : qc.Cache) → m.opened ≡ true
    → let s = handle_submit p net w qc m c in
      (ok_count s.results + failed_count s.results ≡ length (parse_bulk_lines m.form.lines))
      × (s.modal.opened ≡ not (failed_count s.results == 0))
      × (served qc s.cache (query_spec feeds).query_key
          ≡ (served qc c (query_spec feeds).query_key && ok_count s.results == 0))
unfolding handle_submit bulk_mutations
handle_submit-settled p net w qc L m c o =
    let entries = parse_bulk_lines m.form.lines in
    let sent = map (λ e. create_feed (add_body (entry_form m.form e))) entries in
    let settled = all_settled p net w qc sent c in
    (
      ok_count-failed_count settled.0
          ∙ length-all_settled p net w qc sent c
          ∙ length-map (λ e. create_feed (add_body (entry_form m.form e))) entries,
      closed (failed_count settled.0 == 0),
      all_settled-served p net w qc L feeds sent c (feed_creations m.form entries),
    )
  where
    closed :
        (b : Bool)
        → (if b then record { form = initial_bulk; opened = false } else m).opened ≡ not b
    closed true = refl
    closed false = o
