-- ===== src/Policy/BlockPage/Urls.antt =====
-- apps/ui/src/pages/BlockPageCard.tsx: the URLs that a block page may have.
pub mod Schemes
use mantis_dns.Base.{
  ℕ, Bool, true, false, ◌&&◌, ◌||◌, Option, none, some, [], ◌∷◌, ◌++◌, any, all, if◌then◌else◌,
  ◌==◌, leb,
}
use mantis_dns.Base.Text.{Text, codes, is_empty, is_digit, starts_with, lower, trim}

-- Web addresses, whatever the case of their scheme.
unfoldable pub is_web : Text → Bool
unfolding lower
is_web u = starts_with (lower u) (codes "http://") || starts_with (lower u) (codes "https://")

unfoldable pub sanitize_hosted_url : Option Text → Option Text
unfolding trim is_web
sanitize_hosted_url none = none
sanitize_hosted_url (some url) =
    let trimmed = trim url in
    if is_empty trimmed then none else if is_web trimmed then some trimmed else none

-- `[A-Za-z0-9+/]`, in lower case.
abbrev is_base64 : ℕ → Bool
is_base64 c = (leb b'a' c && leb c b'z') || is_digit c || c == b'+' || c == b'/'

-- `[A-Za-z0-9+/]*=*$`, in lower case.
abbrev base64_rest : Text → Bool
base64_rest [] = true
base64_rest (c ∷ s) =
    let rest = base64_rest s in if is_base64 c then rest else c == b'=' && all (λ d. d == b'=') s

-- `[A-Za-z0-9+/]+=*$`, in lower case.
abbrev base64_text : Text → Bool
base64_text [] = false
base64_text (c ∷ s) = is_base64 c && base64_rest s

-- What follows a prefix, if the text has it.
abbrev pub after : Text → Text → Option Text
after [] s = some s
after (p ∷ ps) [] = none
after (p ∷ ps) (c ∷ s) = let rest = after ps s in if c == p then rest else none

abbrev matches_type : Text → Text → Bool
matches_type type s = elim (after (type ++ codes ";base64,") s) [
  | none ↦ false
  | some rest ↦ base64_text rest
]

-- `/^data:image\/(?:png|jpeg|gif|webp|svg\+xml);base64,[A-Za-z0-9+/]+=*$/i`.
unfoldable pub is_image_data_uri : Text → Bool
unfolding lower
is_image_data_uri url = elim (after (codes "data:image/") (lower url)) [
  | none ↦ false
  | some s ↦
      any (λ type. matches_type type s)
        (codes "png" ∷ codes "jpeg" ∷ codes "gif" ∷ codes "webp" ∷ codes "svg+xml" ∷ [])
]

unfoldable pub sanitize_logo_url : Option Text → Option Text
unfolding trim is_image_data_uri sanitize_hosted_url
sanitize_logo_url none = none
sanitize_logo_url (some url) =
    let trimmed = trim url in
    if is_empty trimmed
    then none
    else if is_image_data_uri trimmed
    then some trimmed
    else sanitize_hosted_url (some trimmed)
