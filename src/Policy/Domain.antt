-- ===== src/Policy/Domain.antt =====
-- apps/ui/src/pages/PolicyPage.tsx: `DOMAIN_RE`, the form that adds an override, and the domain that is
-- tested.
use mantis_dns.Base.{
  ℕ, Bool, false, ◌&&◌, ◌||◌, Option, none, some, List, [], ◌∷◌, map, if◌then◌else◌, ◌==◌, leb,
  length, all,
}
use mantis_dns.Base.Text.{Text, is_digit, to_lower, trim}

-- `[a-z0-9]`, without regard to case.
abbrev is_alnum : ℕ → Bool
is_alnum c = is_digit c || (leb b'a' (to_lower c) && leb (to_lower c) b'z')

abbrev is_inner : ℕ → Bool
is_inner c = is_alnum c || c == b'-'

-- A text that ends in a letter or a digit.
abbrev ends_well : Text → Bool
ends_well [] = false
ends_well (c ∷ []) = is_alnum c
ends_well (c ∷ d ∷ s) = ends_well (d ∷ s)

abbrev starts_well : Text → Bool
starts_well [] = false
starts_well (c ∷ s) = is_alnum c

-- `[a-z0-9]([a-z0-9-]{0,61}[a-z0-9])?`, on the whole text.
abbrev is_label : Text → Bool
is_label s = starts_well s && ends_well s && all is_inner s && leb (length s) 63

-- The texts between the dots.
unfoldable labels : Text → List Text
labels [] = [] ∷ []
labels (c ∷ s) = elim (labels s) [
  | [] ↦ []
  | l ∷ ls ↦ if c == b'.' then [] ∷ l ∷ ls else (c ∷ l) ∷ ls
]

-- `DOMAIN_RE.test(s)`.
unfoldable is_domain : Text → Bool
unfolding labels to_lower
is_domain s = leb 2 (length (labels s)) && all is_label (labels s)

-- `kind` of an override.
pub data Kind : Type 0 where
  allow deny : Kind

pub record Override : Type 0 where
  pub domain : Text
  pub kind : Kind

-- The submit handler of `AddOverrideForm`, if the form is valid: what `onAdd` is given.
unfoldable submitted_override : Text → Kind → Option Override
unfolding is_domain to_lower trim
submitted_override domain kind =
    if is_domain (trim domain)
    then some (record { domain = map to_lower (trim domain); kind = kind })
    else none
