-- ===== src/Policy/BlockPage/Card.antt =====
-- apps/ui/src/pages/BlockPageCard.tsx: the card with the form of a block page.
use mantis_dns.Base.{
  ℕ, ◌+◌, ◌*◌, ◌/◌, ◌≤◌, String, Bool, true, false, not, ◌&&◌, Option, none, some, List, [], ◌∷◌,
  ◌++◌, any, all, length, Bool-cases, ap, if◌then◌else◌, leb, ltb, ◌≡◌, refl, arith, inl, inr,
}
use mantis_dns.Base.Text.{Text, codes, is_empty, text_eq, text_eq_sound}
use mantis_dns.Base.Json.{Json, bool, num, str, obj, keyed, end}
use mantis_dns.Forms.Optional.{text_json}
use mantis_dns.Base.Platform.{Platform}
use mantis_dns.Api.Outcome.{Outcome, value, thrown, is_value}
use mantis_dns.Api.Errors.{format_error}
use mantis_dns.Api.Cache.{QueryClient}
use mantis_dns.Api.Mutations.{upsert_block_page_template, compile_bundle}
use mantis_dns.Api.Client.{Window, Exchange}
use mantis_dns.Api.Client.Run.{Network, run_mutation}
use mantis_dns.Policy.BlockPage.{BlockMode, nxdomain, zero_ip, redirect, Upsert}

-- `DEFAULTS`.
abbrev pub defaults : Upsert
defaults = record {
  block_mode = nxdomain;
  redirect_ipv4 = none;
  redirect_ipv6 = none;
  ttl_seconds = 30;
  title = none;
  message = none;
  logo_url = none;
  brand_color = none;
  contact_url = none;
  show_domain = true;
  show_category = true;
}

-- The effect on `template`.
unfoldable pub load_template : Option Upsert → Upsert
load_template none = defaults
load_template (some t) = t

abbrev is_blank : Option Text → Bool
is_blank none = true
is_blank (some t) = is_empty t

abbrev is_redirect : BlockMode → Bool
is_redirect redirect = true
is_redirect _ = false

unfoldable pub missing_redirect_ip : Upsert → Bool
missing_redirect_ip f =
    is_redirect f.block_mode && is_blank f.redirect_ipv4 && is_blank f.redirect_ipv6

-- `LOGO_MAX_BYTES`.
abbrev pub logo_max_bytes : ℕ
logo_max_bytes = 200 * 1024

abbrev pub logo_types : List Text
logo_types =
    codes "image/png"
    ∷ codes "image/jpeg"
    ∷ codes "image/gif"
    ∷ codes "image/webp"
    ∷ codes "image/svg+xml"
    ∷ []

-- `LOGO_MIME_RE.test(type)`.
abbrev pub is_logo_type : Text → Bool
is_logo_type type = any (text_eq type) logo_types

-- A file of the picker; its contents as a data URI, or the message of the error that stops the
-- reading.
pub record File : Type 0 where
  pub type : Text
  pub size : ℕ
  pub data_url : Outcome Text

pub data Uploaded : Type 0 where
  wrong_type : Uploaded
  too_large : ℕ → Uploaded
  unreadable : Text → Uploaded
  stored : Upsert → Uploaded

-- `Math.round(n / 1024)`.
abbrev pub kilobytes : ℕ → ℕ
kilobytes n = (n + 512) / 1024

unfoldable pub upload_logo : File → Upsert → Uploaded
upload_logo file f =
    if not (is_logo_type file.type)
    then wrong_type
    else if ltb logo_max_bytes file.size
    then too_large (kilobytes file.size)
    else elim file.data_url [
      | thrown e ↦ unreadable e
      | value url ↦ stored (record f { logo_url = some url })
    ]

abbrev mode_text : BlockMode → Text
mode_text nxdomain = codes "BLOCK_MODE_NXDOMAIN"
mode_text zero_ip = codes "BLOCK_MODE_ZERO_IP"
mode_text redirect = codes "BLOCK_MODE_REDIRECT"

unfoldable pub upsert_json : Upsert → Json
upsert_json f = obj (
    keyed "block_mode" (str (mode_text f.block_mode)) (
      keyed "redirect_ipv4" (text_json f.redirect_ipv4) (
        keyed "redirect_ipv6" (text_json f.redirect_ipv6) (
          keyed "ttl_seconds" (num f.ttl_seconds) (
            keyed "title" (text_json f.title) (
              keyed "message" (text_json f.message) (
                keyed "logo_url" (text_json f.logo_url) (
                  keyed "brand_color" (text_json f.brand_color) (
                    keyed "contact_url" (text_json f.contact_url) (
                      keyed "show_domain" (bool f.show_domain)
                        (keyed "show_category" (bool f.show_category) end)))))))))))

-- What the user is told after a save.
pub data Notice : Type 0 where
  published : Notice
  unpublished : Text → Notice
  unsaved : Text → Notice

-- The message and the colour of the notification.
abbrev notice_shown : Notice → Text × String
notice_shown published = (codes "Block page saved and published", "green")
notice_shown (unpublished e) =
    (codes "Block page saved, but publishing the bundle failed: " ++ e, "red")
notice_shown (unsaved e) = (e, "red")

abbrev pub is_success : Notice → Bool
is_success published = true
is_success _ = false

pub record Saved (C : Type 0) : Type 0 where
  pub upserted : Exchange (Option Json)
  -- The compilation, if it was asked for.
  pub compiled : Option (Exchange (Option Json))
  pub notice : Notice
  pub cache : C

module _ (p : Platform) (net : Network) (w : Window) (qc : QueryClient) where
  -- The `onSuccess` of the upsert.
  unfoldable publish : String → Exchange (Option Json) → qc.Cache → Saved qc.Cache
  unfolding run_mutation format_error
  publish group_id first c =
      let next = run_mutation p net w qc (compile_bundle group_id) c in
      record {
        upserted = first;
        compiled = some next.0;
        notice = elim next.0.outcome [
          | value v ↦ published
          | thrown e ↦ unpublished (format_error p e)
        ];
        cache = next.1;
      }

  -- `save`, on a page with a group.
  unfoldable pub save : String → Upsert → qc.Cache → Saved qc.Cache
  unfolding run_mutation format_error publish upsert_json
  save group_id f c =
      let first =
        run_mutation p net w qc (upsert_block_page_template (some group_id) (upsert_json f)) c in
      elim first.0.outcome [
        | value v ↦ publish group_id first.0 first.1
        | thrown e ↦ record {
          upserted = first.0;
          compiled = none;
          notice = unsaved (format_error p e);
          cache = first.1;
        }
      ]

  abbrev pub is_published : Option (Exchange (Option Json)) → Bool
  is_published none = false
  is_published (some x) = is_value x.outcome

  abbrev pub is_asked : Option (Exchange (Option Json)) → Bool
  is_asked none = false
  is_asked (some x) = true

  -- A save asks for the bundle to be compiled exactly when the template has been stored, and tells
  -- the user of a success exactly when the bundle has been compiled too.
  pub save-is_success :
      (group_id : String) (f : Upsert) (c : qc.Cache)
      → let s = save group_id f c in
        (is_asked s.compiled ≡ is_value s.upserted.outcome)
        × (is_success s.notice ≡ (is_value s.upserted.outcome && is_published s.compiled))
  unfolding save publish
  save-is_success group_id f c = ground arith

-- What `readAsDataURL` makes of a file, as RFC 2397 has it: its type, and its bytes in Base64.
abbrev pub data_url_length : Text → ℕ → ℕ
data_url_length type size = 13 + length type + 4 * ((size + 2) / 3)

-- The largest `logo_url` that the control plane takes (_LOGO_MAX_LEN of api/schemas.py).
abbrev pub server_logo_max : ℕ
server_logo_max = 300000

abbrev pub is_stored : Uploaded → Bool
is_stored (stored f) = true
is_stored _ = false

any-short :
    (n : ℕ) (s : Text) (ts : List Text)
    → any (text_eq s) ts ≡ true
    → all (λ t. leb (length t) n) ts ≡ true
    → length s ≤ n
any-short n s [] h k = ground arith
any-short n s (t ∷ ts) h k = elim (Bool-cases (text_eq s t)) [
  | inl e ↦ let same = ap length (text_eq_sound s t e) in ground arith
  | inr e ↦ ground (arith, any-short n s ts)
]

accepted :
    (typed large : Bool) (n : ℕ) (u : Uploaded)
    → is_stored (if not typed then wrong_type else if large then too_large n else u) ≡ true
    → (typed ≡ true) × (large ≡ false)
accepted true true n u h = ground arith
accepted true false n u h = (refl, refl)
accepted false large n u h = ground arith

-- A logo that the card accepts fits into the field of the control plane as a data URI.
pub upload_logo-fits :
    (file : File) (f : Upsert)
    → is_stored (upload_logo file f) ≡ true
    → data_url_length file.type file.size ≤ server_logo_max
unfolding upload_logo
upload_logo-fits file f h =
    let (typed, small) =
      accepted (is_logo_type file.type) (ltb logo_max_bytes file.size) (kilobytes file.size)
        (elim file.data_url [
          | thrown e ↦ unreadable e
          | value url ↦ stored (record f { logo_url = some url })
        ])
        h in
    let short : length file.type ≤ 13 = any-short 13 file.type logo_types typed refl in
    let fits : file.size ≤ logo_max_bytes = ground arith in omega (arith, short, fits)
