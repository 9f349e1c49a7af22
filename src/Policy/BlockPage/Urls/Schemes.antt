-- ===== src/Policy/BlockPage/Urls/Schemes.antt =====
-- The schemes of the URLs that a block page may have, by what a URL's scheme is: the text in front of its
-- first colon, whatever its case.
use mantis_dns.Base.{
  Bool, true, false, not, ◌||◌, Option, none, some, [], ◌∷◌, ◌++◌, all, if◌then◌else◌, ◌==◌, ◌≡◌,
  refl, subst, arith, ap, sym, Bool-cases, inl, inr,
}
use mantis_dns.Base.Text.{Text, codes, is_empty, starts_with, text_eq, lower, trim}
use mantis_dns.Policy.BlockPage.Urls.{
  after, is_web, is_image_data_uri, sanitize_hosted_url, sanitize_logo_url,
}

abbrev scheme : Text → Text
scheme [] = []
scheme (c ∷ s) = let rest = scheme s in if c == b':' then [] else c ∷ rest

unfoldable pub scheme_of : Text → Text
unfolding lower
scheme_of u = scheme (lower u)

abbrev pub is_http : Text → Bool
is_http s = text_eq s (codes "http") || text_eq s (codes "https")

-- A scheme that a URL begins with.
scheme-starts_with :
    (p s rest : Text)
    → all (λ c. not (c == b':')) p ≡ true
    → starts_with s (p ++ b':' ∷ rest) ≡ true
    → scheme s ≡ p
scheme-starts_with [] [] rest f h = ground arith
scheme-starts_with [] (c ∷ s) rest f h = ground arith
scheme-starts_with (d ∷ p) [] rest f h = ground arith
scheme-starts_with (d ∷ p) (c ∷ s) rest f h = ground (arith, scheme-starts_with p s rest)

is_web-is_http : (u : Text) → is_web u ≡ true → is_http (scheme_of u) ≡ true
unfolding is_web scheme_of
is_web-is_http u h = elim (Bool-cases (starts_with (lower u) (codes "http://"))) [
  | inl e ↦ ap is_http (scheme-starts_with (codes "http") (lower u) (codes "//") refl e)
  | inr e ↦
      ap is_http (scheme-starts_with (codes "https") (lower u) (codes "//") refl (ground arith))
]

after-starts_with : (p s r : Text) → after p s ≡ some r → starts_with s p ≡ true
after-starts_with [] s r h = ground arith
after-starts_with (d ∷ p) [] r h = ground arith
after-starts_with (d ∷ p) (c ∷ s) r h = ground (arith, after-starts_with p s r)

found :
    (o : Option Text) (f : Text → Bool) (b : Bool)
    → ((r : Text) → o ≡ some r → b ≡ true)
    → (elim o [ none ↦ false | some s ↦ f s ]) ≡ true
    → b ≡ true
found none f b g h = ground arith
found (some s) f b g h = g s refl

is_image_data_uri-starts_with :
    (v : Text) → is_image_data_uri v ≡ true → starts_with (lower v) (codes "data:image/") ≡ true
unfolding is_image_data_uri
is_image_data_uri-starts_with v h =
    found (after (codes "data:image/") (lower v)) _ _
      (after-starts_with (codes "data:image/") (lower v)) h

or_true : (a b : Bool) → b ≡ true → (a || b) ≡ true
or_true true b h = refl
or_true false b h = h

passed :
    (blank web : Bool) (t u : Text)
    → (if blank then none else if web then some t else none) ≡ some u
    → (web ≡ true) × (t ≡ u)
passed true web t u h = ground arith
passed false true t u h = ground arith
passed false false t u h = ground arith

sanitize_hosted_url-is_http :
    (url u : Text)
    → sanitize_hosted_url (some url) ≡ some u
    → (is_http (scheme_of u) ≡ true) × (u ≡ trim url)
unfolding sanitize_hosted_url
sanitize_hosted_url-is_http url u h =
    let (web, same) = passed (is_empty (trim url)) (is_web (trim url)) (trim url) u h in
    (
      subst (λ (t : Text). is_http (scheme_of t) ≡ true) same (is_web-is_http (trim url) web),
      sym same,
    )

sanitize_logo_url-allowed :
    (url v : Text)
    → sanitize_logo_url (some url) ≡ some v
    → (is_http (scheme_of v) || starts_with (lower v) (codes "data:image/")) ≡ true
unfolding sanitize_logo_url
sanitize_logo_url-allowed url v h =
    logo (is_empty (trim url)) (is_image_data_uri (trim url)) (trim url)
      (sanitize_hosted_url (some (trim url))) refl
      (λ e. (sanitize_hosted_url-is_http (trim url) v e).0) h
  where
    logo :
        (blank image : Bool) (t : Text) (hosted : Option Text)
        → is_image_data_uri t ≡ image
        → (hosted ≡ some v → is_http (scheme_of v) ≡ true)
        → (if blank then none else if image then some t else hosted) ≡ some v
        → (is_http (scheme_of v) || starts_with (lower v) (codes "data:image/")) ≡ true
    logo true image t hosted e w k = ground arith
    logo false true t hosted e w k =
        let same : t ≡ v = ground arith in
        or_true (is_http (scheme_of v)) (starts_with (lower v) (codes "data:image/")) (
          subst (λ (s : Text). starts_with (lower s) (codes "data:image/") ≡ true) same
            (is_image_data_uri-starts_with t e))
    logo false false t hosted e w k = rw (w k) refl

-- Whatever was typed, the scheme of a contact address that is shown is `http` or `https`, and the address
-- is what was typed without the white space around it; and a logo that is shown has one of these schemes
-- or begins with `data:image/`. The scheme is the text in front of the first colon, whatever its case.
pub sanitized-is_http :
    (contact logo u v : Text)
    → sanitize_hosted_url (some contact) ≡ some u
    → sanitize_logo_url (some logo) ≡ some v
    → ((is_http (scheme_of u) ≡ true) × (u ≡ trim contact))
      × ((is_http (scheme_of v) || starts_with (lower v) (codes "data:image/")) ≡ true)
sanitized-is_http contact logo u v h k =
    (sanitize_hosted_url-is_http contact u h, sanitize_logo_url-allowed logo v k)
