-- ===== src/Policy/BlockPage.antt =====
-- apps/ui/src/pages/BlockPageCard.tsx: the preview of a group's block page.
pub mod Urls
pub mod Escape
pub mod Safety
pub mod Card
use mantis_dns.Base.{
  ℕ, Bool, true, false, not, ◌&&◌, ◌||◌, Option, none, some, List, [], ◌∷◌, ◌++◌, all, length,
  if◌then◌else◌, ◌==◌, leb,
}
use mantis_dns.Base.Text.{Text, codes, is_empty, is_digit}
use Urls.{sanitize_hosted_url, sanitize_logo_url}
use Escape.{escape_html}

pub data BlockMode : Type 0 where
  nxdomain zero_ip redirect : BlockMode

-- `BlockPageTemplateUpsert`.
pub record Upsert : Type 0 where
  pub block_mode : BlockMode
  pub redirect_ipv4 : Option Text
  pub redirect_ipv6 : Option Text
  pub ttl_seconds : ℕ
  pub title : Option Text
  pub message : Option Text
  pub logo_url : Option Text
  pub brand_color : Option Text
  pub contact_url : Option Text
  pub show_domain : Bool
  pub show_category : Bool

abbrev pub is_hex : ℕ → Bool
is_hex c = is_digit c || (leb b'a' c && leb c b'f') || (leb b'A' c && leb c b'F')

-- `/^#(?:[0-9a-fA-F]{3}|[0-9a-fA-F]{6})$/`.
abbrev pub is_color : Text → Bool
is_color [] = false
is_color (c ∷ s) = c == b'#' && all is_hex s && (length s == 3 || length s == 6)

unfoldable pub preview_color : Option Text → Text
preview_color none = codes "#c0392b"
preview_color (some c) = if is_color c then c else codes "#c0392b"

-- `v || fallback`.
abbrev pub or_else : Option Text → Text → Text
or_else none d = d
or_else (some v) d = if is_empty v then d else v

abbrev pub logo_tag : Option Text → Text
logo_tag none = []
logo_tag (some u) = codes "<img class=\"logo\" src=\"" ++ escape_html u ++ codes "\" alt=\"\">"

abbrev pub contact_tag : Option Text → Text
contact_tag none = []
contact_tag (some u) =
    codes "<p class=\"contact\"><a href=\""
    ++ (escape_html u ++ codes "\">Request access or contact your administrator</a></p>")

abbrev pub heading : Upsert → Text
heading t =
    codes "<h1>"
    ++ (escape_html (or_else t.title (codes "Access blocked"))
        ++ (codes "</h1><p class=\"msg\">"
            ++ (escape_html (
                  or_else t.message
                    (codes "This site has been blocked by your network's content policy."))
                ++ codes "</p>")))

abbrev pub domain_tag : Bool → Text
domain_tag false = []
domain_tag true = codes "<p class=\"domain\">Requested site: <strong>ads.example.com</strong></p>"

abbrev pub category_tag : Bool → Text
category_tag false = []
category_tag true = codes "<p class=\"reason\">Category: <strong>advertising</strong></p>"

-- `body`.
unfoldable pub preview_body : Upsert → Text
unfolding escape_html sanitize_logo_url sanitize_hosted_url
preview_body t =
    logo_tag (sanitize_logo_url t.logo_url)
    ++ (heading t
        ++ (domain_tag t.show_domain
            ++ (category_tag t.show_category ++ contact_tag (sanitize_hosted_url t.contact_url))))

abbrev pub head_1 : Text
head_1 =
    codes
      "<!doctype html><html><head><meta charset=\"utf-8\"><style>\n:root{color-scheme:light dark}\nbody{margin:0;min-height:100vh;display:flex;align-items:center;justify-content:center;\nfont-family:system-ui,-apple-system,Segoe UI,Roboto,sans-serif;background:#f4f4f5;color:#18181b}\n.card{max-width:32rem;margin:1rem;padding:2.5rem;background:#fff;border-radius:12px;\nbox-shadow:0 10px 30px rgba(0,0,0,.08);border-top:6px solid "

abbrev pub head_2 : Text
head_2 =
    codes
      ";text-align:center}\n.logo{max-height:56px;margin-bottom:1rem}\nh1{margin:.25rem 0 1rem;font-size:1.5rem;color:"

abbrev pub head_3 : Text
head_3 =
    codes
      "}\n.msg{font-size:1.05rem;line-height:1.5}\n.domain,.reason{margin:.5rem 0;color:#52525b;font-size:.95rem}\n.contact{margin-top:1.5rem}.contact a{color:"

abbrev pub head_4 : Text
head_4 = codes "}\n</style></head><body><main class=\"card\">"

abbrev pub foot : Text
foot = codes "</main></body></html>"

-- `previewHtml`.
unfoldable pub preview_html : Upsert → Text
unfolding preview_color preview_body
preview_html t =
    let color = preview_color t.brand_color in
    head_1
    ++ (color ++ (head_2 ++ (color ++ (head_3 ++ (color ++ (head_4 ++ (preview_body t ++ foot)))))))
