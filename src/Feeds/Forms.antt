-- ===== src/Feeds/Forms.antt =====
-- apps/ui/src/pages/FeedsPage.tsx: the forms that add one feed and edit one.
use mantis_dns.Base.{
  ℕ, String, Bool, true, ◌&&◌, Option, none, some, List, [], ◌∷◌, length, leb, if◌then◌else◌,
  str_eq, false, ◌++◌, ◌≡◌, ap,
}
use mantis_dns.Base.Text.{Text, codes, trim}
use mantis_dns.Base.Json.{Json, bool, num, str, obj, keyed, end}
use mantis_dns.Api.Mutations.{MutationHook, create_feed, update_feed}
use mantis_dns.Forms.{Form}
use mantis_dns.Forms.EditModal.{Modal, Event, open_edit, close, edit_run, start, reopened-keyed}
use mantis_dns.Feeds.{Feed}

pub record AddForm : Type 0 where
  pub id : Text
  pub category_id : Text
  pub url : Text
  pub format : Text
  pub interval_seconds : ℕ
  pub provider : Text
  pub license : Text

abbrev pub initial_add : AddForm
initial_add = record {
  id = [];
  category_id = [];
  url = [];
  format = codes "domain-list";
  interval_seconds = 86400;
  provider = [];
  license = [];
}

-- `v.trim().length < 2` is an error.
abbrev pub two_or_more : Text → Bool
two_or_more v = leb 2 (length (trim v))

-- `validate`; whether `new URL(v)` throws is an argument.
unfoldable pub add_valid : (Text → Bool) → AddForm → Bool
add_valid is_url v = two_or_more v.id && two_or_more v.category_id && is_url v.url

-- `{ ...values, enabled: true }`.
unfoldable pub add_body : AddForm → Json
add_body v = obj (
    keyed "id" (str v.id) (
      keyed "category_id" (str v.category_id) (
        keyed "url" (str v.url) (
          keyed "format" (str v.format) (
            keyed "interval_seconds" (num v.interval_seconds) (
              keyed "provider" (str v.provider)
                (keyed "license" (str v.license) (keyed "enabled" (bool true) end))))))))

unfoldable submit_add : (Text → Bool) → AddForm → Option MutationHook
unfolding add_valid add_body
submit_add is_url v = if add_valid is_url v then some (create_feed (add_body v)) else none

pub record EditForm : Type 0 where
  pub url : Text
  pub category_id : Text
  pub format : Text
  pub interval_seconds : ℕ
  pub provider : Text
  pub license : Text

unfoldable edit_values : Option Feed → EditForm
edit_values none = record {
  url = [];
  category_id = [];
  format = codes "domain-list";
  interval_seconds = 86400;
  provider = [];
  license = [];
}
edit_values (some f) = record {
  url = f.url;
  category_id = f.category_id;
  format = f.format;
  interval_seconds = f.interval_seconds;
  provider = f.provider;
  license = f.license;
}

unfoldable edit_body : EditForm → Json
edit_body v = obj (
    keyed "url" (str v.url) (
      keyed "category_id" (str v.category_id) (
        keyed "format" (str v.format) (
          keyed "interval_seconds" (num v.interval_seconds)
            (keyed "provider" (str v.provider) (keyed "license" (str v.license) end))))))

unfoldable submit_edit : Feed → EditForm → MutationHook
unfolding edit_body
submit_edit f v = update_feed (f.id, edit_body v)

abbrev pub key_of : Option Feed → String
key_of none = "none"
key_of (some f) = f.id

-- `<EditFeedModal key={editFeed?.id ?? "none"} feed={editFeed} …/>`.
unfoldable pub edit_feed_modal : Modal Feed EditForm
unfolding edit_values
edit_feed_modal = record { initial_values = edit_values; key = key_of }

-- The modal of a feed that is opened shows the values of that feed.
edit_feed_modal-edit_values :
    (evs : List (Event Feed EditForm)) (f : Feed)
    → str_eq "none" f.id ≡ false
    → (edit_run Feed EditForm edit_feed_modal
        (evs ++ close ∷ open_edit f ∷ [])
        (start Feed EditForm edit_feed_modal)).form.values
      ≡ edit_values (some f)
unfolding edit_feed_modal
edit_feed_modal-edit_values evs f other =
    ap (λ (form : Form EditForm). form.values)
      (reopened-keyed Feed EditForm edit_feed_modal evs f other)
