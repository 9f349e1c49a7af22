-- ===== src/Policy/BlockPage/Safety.antt =====
-- What an administrator types into the block page cannot add markup to its preview.
use mantis_dns.Base.{
  ℕ, ◌+◌, Bool, true, false, ◌&&◌, ◌||◌, Option, none, some, [], ◌∷◌, ◌++◌, all, length, keep_if,
  keep_if-append, length-append, ◌==◌, ◌≡◌, refl, sym, ap, ◌∙◌, arith, &&_true, Bool-cases, inl,
  inr,
}
use mantis_dns.Base.Text.{Text, codes, trim, lower}
use mantis_dns.Policy.BlockPage.{
  Upsert, is_hex, is_color, preview_color, logo_tag, contact_tag, heading, preview_body,
  preview_html, domain_tag, category_tag, head_1, head_2, head_3, head_4, foot,
}
use mantis_dns.Policy.BlockPage.Escape.{escape_html, escaped, escape_each, escape_html-escape_each}
use mantis_dns.Policy.BlockPage.Urls.{
  sanitize_hosted_url, sanitize_logo_url, is_web, is_image_data_uri,
}

-- Angle brackets and quotation marks.
abbrev pub is_markup : ℕ → Bool
is_markup c = c == b'<' || c == b'>' || c == b'"' || c == b'\''

abbrev pub count : ℕ → Text → ℕ
count c s = length (keep_if (λ d. d == c) s)

count-append : (c : ℕ) (s t : Text) → count c (s ++ t) ≡ count c s + count c t
count-append c s t =
    ap length (keep_if-append (λ d. d == c) s t)
    ∙ length-append (keep_if (λ d. d == c) s) (keep_if (λ d. d == c) t)

count-escaped : (c d : ℕ) → is_markup c ≡ true → count c (escaped d) ≡ 0
count-escaped c d h = ground arith

count-escape_html : (c : ℕ) (s : Text) → is_markup c ≡ true → count c (escape_html s) ≡ 0
count-escape_html c s h = ap (count c) (escape_html-escape_each s) ∙ go s
  where
    go : (u : Text) → count c (escape_each u) ≡ 0
    go [] = refl
    go (d ∷ u) =
        omega (arith, count-append c (escaped d) (escape_each u), count-escaped c d h, go u)

count-hex : (c : ℕ) (s : Text) → is_markup c ≡ true → all is_hex s ≡ true → count c s ≡ 0
count-hex c [] h k = refl
count-hex c (d ∷ s) h k =
    let (first, others) = &&_true (is_hex d) (all is_hex s) k in
    let apart : (d == c) ≡ false = ground arith in rw apart (count-hex c s h others)

count-standard : (c : ℕ) → is_markup c ≡ true → count c (codes "#c0392b") ≡ 0
count-standard c h = ground arith

count-color : (c : ℕ) (o : Option Text) → is_markup c ≡ true → count c (preview_color o) ≡ 0
unfolding preview_color
count-color c none h = count-standard c h
count-color c (some s) h = elim (Bool-cases (is_color s)) [
  | inl e ↦ rw e (colored s e)
  | inr e ↦ rw e (count-standard c h)
]
  where
    colored : (s : Text) → is_color s ≡ true → count c s ≡ 0
    colored [] e = refl
    colored (d ∷ s) e =
        let (digits, long) =
          &&_true (d == b'#' && all is_hex s) (length s == 3 || length s == 6) e in
        let (hash, hex) = &&_true (d == b'#') (all is_hex s) digits in
        let apart : (d == c) ≡ false = ground arith in rw apart (count-hex c s h hex)

-- The two texts have as many of the code unit.
record Alike (c : ℕ) (s t : Text) : Type 0 where
  pub same : count c s ≡ count c t

-- The template with its own texts and colour, and with one address in place of any that is shown.
abbrev placeholder : Option Text → Option Text
placeholder none = none
placeholder (some u) = some (codes "https://example.com")

abbrev pub plain : Upsert → Upsert
plain t = record t {
  title = none;
  message = none;
  brand_color = none;
  logo_url = placeholder (sanitize_logo_url t.logo_url);
  contact_url = placeholder (sanitize_hosted_url t.contact_url);
}

hosted-placeholder : (o : Option Text) → sanitize_hosted_url (placeholder o) ≡ placeholder o
unfolding sanitize_hosted_url is_web trim lower
hosted-placeholder none = refl
hosted-placeholder (some u) = refl

logo-placeholder : (o : Option Text) → sanitize_logo_url (placeholder o) ≡ placeholder o
unfolding sanitize_logo_url sanitize_hosted_url is_image_data_uri is_web trim lower
logo-placeholder none = refl
logo-placeholder (some u) = refl

module _ (c : ℕ) (h : is_markup c ≡ true) where
  kept : (s : Text) → Alike c s s
  kept s = record { same = refl }

  both : {s s' t t' : Text} → Alike c s s' → Alike c t t' → Alike c (s ++ t) (s' ++ t')
  both {s} {s'} {t} {t'} a b = record {
    same = omega (arith, a.same, b.same, count-append c s t, count-append c s' t');
  }

  escaped-Alike : (s t : Text) → Alike c (escape_html s) (escape_html t)
  escaped-Alike s t = record { same = count-escape_html c s h ∙ sym (count-escape_html c t h) }

  color-Alike : (o p : Option Text) → Alike c (preview_color o) (preview_color p)
  color-Alike o p = record { same = count-color c o h ∙ sym (count-color c p h) }

  logo-Alike : (o : Option Text) → Alike c (logo_tag o) (logo_tag (placeholder o))
  logo-Alike none = kept []
  logo-Alike (some u) =
      both (kept (codes "<img class=\"logo\" src=\""))
        (both (escaped-Alike u (codes "https://example.com")) (kept (codes "\" alt=\"\">")))

  contact-Alike : (o : Option Text) → Alike c (contact_tag o) (contact_tag (placeholder o))
  contact-Alike none = kept []
  contact-Alike (some u) = both (kept (codes "<p class=\"contact\"><a href=\"")) (
      both (escaped-Alike u (codes "https://example.com"))
        (kept (codes "\">Request access or contact your administrator</a></p>")))

  heading-Alike : (t : Upsert) → Alike c (heading t) (heading (plain t))
  heading-Alike t = both (kept (codes "<h1>")) (
      both (escaped-Alike _ _) (
        both (kept (codes "</h1><p class=\"msg\">"))
          (both (escaped-Alike _ _) (kept (codes "</p>")))))

  body-Alike : (t : Upsert) → Alike c (preview_body t) (preview_body (plain t))
  unfolding preview_body
  body-Alike t =
      rw
        (
          logo-placeholder (sanitize_logo_url t.logo_url),
          hosted-placeholder (sanitize_hosted_url t.contact_url),
        )
        (both (logo-Alike (sanitize_logo_url t.logo_url)) (
          both (heading-Alike t) (
            both (kept (domain_tag t.show_domain)) (
              both (kept (category_tag t.show_category))
                (contact-Alike (sanitize_hosted_url t.contact_url))))))

-- Whatever is typed into the template, its preview has as many angle brackets and quotation marks as
-- that of the same template with the standard texts and colour, and with a plain web address in place
-- of each address that is shown: no text, colour or address opens a tag or ends an attribute.
pub preview_html-plain :
    (t : Upsert) (c : ℕ)
    → is_markup c ≡ true
    → count c (preview_html t) ≡ count c (preview_html (plain t))
unfolding preview_html
preview_html-plain t c h =
    let color = color-Alike c h t.brand_color none in
    (both c h (kept c h head_1) (
      both c h color (
        both c h (kept c h head_2) (
          both c h color (
            both c h (kept c h head_3) (
              both c h color (
                both c h (kept c h head_4) (both c h (body-Alike c h t) (kept c h foot))))))))).same
