-- ===== src/Tests/BlockPage.antt =====
-- The block page at concrete inputs.
use mantis_dns.Base.{true, ◌&&◌, ◌||◌, ◌≤◌, some, [], ◌≡◌, refl}
use mantis_dns.Base.Text.{codes, trim, lower, starts_with}
use mantis_dns.Api.Outcome.{value, is_value}
use mantis_dns.Api.Cache.Memory.{memory_client}
use mantis_dns.Policy.BlockPage.{Upsert, preview_html}
use mantis_dns.Policy.BlockPage.Urls.{
  is_web, is_image_data_uri, sanitize_hosted_url, sanitize_logo_url,
}
use mantis_dns.Policy.BlockPage.Urls.Schemes.{scheme_of, is_http, sanitized-is_http}
use mantis_dns.Policy.BlockPage.Safety.{count, plain, preview_html-plain}
use mantis_dns.Policy.BlockPage.Card.{
  defaults, File, upload_logo, is_stored, data_url_length, server_logo_max, upload_logo-fits, save,
  is_asked, is_success, is_published, save-is_success,
}
use mantis_dns.Tests.Fixtures.{platform, page, accepting}

abbrev template : Upsert
template = record defaults {
  title = some (codes "<script>alert(1)</script>");
  logo_url = some (codes "javascript:alert(1)");
  contact_url = some (codes "https://example.com/?\"><img src=x>");
  brand_color = some (codes "red;}<");
}

preview_html-plain_example :
    count b'<' (preview_html template) ≡ count b'<' (preview_html (plain template))
preview_html-plain_example = preview_html-plain template b'<' refl

hosted :
    sanitize_hosted_url (some (codes " HTTPS://example.com ")) ≡ some (codes "HTTPS://example.com")
unfolding sanitize_hosted_url is_web trim lower
hosted = refl

embedded :
    sanitize_logo_url (some (codes "data:image/png;base64,iVBORw0="))
    ≡ some (codes "data:image/png;base64,iVBORw0=")
unfolding sanitize_logo_url sanitize_hosted_url is_image_data_uri is_web trim lower
embedded = refl

sanitized-is_http_example :
    ((is_http (scheme_of (codes "HTTPS://example.com")) ≡ true)
      × (codes "HTTPS://example.com" ≡ trim (codes " HTTPS://example.com ")))
    × ((is_http (scheme_of (codes "data:image/png;base64,iVBORw0="))
          || starts_with (lower (codes "data:image/png;base64,iVBORw0=")) (codes "data:image/"))
        ≡ true)
sanitized-is_http_example =
    sanitized-is_http (codes " HTTPS://example.com ") (codes "data:image/png;base64,iVBORw0=")
      (codes "HTTPS://example.com") (codes "data:image/png;base64,iVBORw0=") hosted embedded

abbrev logo : File
logo = record { type = codes "image/svg+xml"; size = 204800; data_url = value (codes "data:") }

logo_stored : is_stored (upload_logo logo defaults) ≡ true
unfolding upload_logo
logo_stored = refl

upload_logo-fits_example : data_url_length (codes "image/svg+xml") 204800 ≤ server_logo_max
upload_logo-fits_example = upload_logo-fits logo defaults logo_stored

save-is_success_example :
    let s = save platform accepting page memory_client "g1" template [] in
    (is_asked platform accepting page memory_client s.compiled ≡ is_value s.upserted.outcome)
    × (is_success s.notice ≡ (
        is_value s.upserted.outcome
        && is_published platform accepting page memory_client s.compiled))
save-is_success_example = save-is_success platform accepting page memory_client "g1" template []
