-- ===== src/Forms/Optional.antt =====
-- The optional texts of the forms: `null` in the API, empty in an input.
use mantis_dns.Base.{Bool, true, not, Option, none, some, [], if◌then◌else◌, ◌≡◌, refl, arith}
use mantis_dns.Base.Text.{Text, is_empty}
use mantis_dns.Base.Json.{Json, null, str}

-- `v ?? ""`.
abbrev pub or_blank : Option Text → Text
or_blank none = []
or_blank (some v) = v

-- `v || null`.
abbrev pub or_null : Text → Option Text
or_null v = if is_empty v then none else some v

-- An optional text as the API stores it: `null` rather than empty.
abbrev pub is_stored : Option Text → Bool
is_stored none = true
is_stored (some t) = not (is_empty t)

pub or_null-or_blank : (o : Option Text) → is_stored o ≡ true → or_null (or_blank o) ≡ o
or_null-or_blank none h = refl
or_null-or_blank (some t) h = ground arith

-- The value as JSON.
abbrev pub text_json : Option Text → Json
text_json none = null
text_json (some t) = str t
