-- ===== src/Accounts/Groups.antt =====
-- apps/ui/src/pages/GroupsPage.tsx and TenantsPage.tsx: the forms.
use mantis_dns.Base.{
  ℕ, suc, String, Bool, false, ◌&&◌, ◌||◌, Option, none, some, [], ◌∷◌, length, if◌then◌else◌, leb,
  ◌==◌,
}
use mantis_dns.Base.Text.{Text, is_empty, is_digit, trim}
use mantis_dns.Base.Json.{str, obj, keyed, end}
use mantis_dns.Api.Mutations.{MutationHook, create_group, rename_group, create_tenant}
use mantis_dns.Forms.Optional.{or_null, text_json}

-- How many digits the text begins with, and what follows them.
abbrev pub digit_run : Text → ℕ × Text
digit_run [] = (0, [])
digit_run (c ∷ s) =
    let rest = digit_run s in if is_digit c then (suc rest.0, rest.1) else (0, c ∷ s)

abbrev after_separator : ℕ → Text → Option Text
after_separator sep [] = none
after_separator sep (c ∷ s) = if c == sep then some s else none

-- `\d{1,3}` and a separator, which is no digit: what follows.
abbrev pub part : ℕ → Text → Option Text
part sep s =
    let run = digit_run s in if leb 1 run.0 && leb run.0 3 then after_separator sep run.1 else none

abbrev then_part : ℕ → Option Text → Option Text
then_part sep none = none
then_part sep (some s) = part sep s

-- `\d{1,2}$`.
abbrev is_prefix_length : Option Text → Bool
is_prefix_length none = false
is_prefix_length (some s) = let run = digit_run s in leb 1 run.0 && leb run.0 2 && is_empty run.1

-- `CIDR_RE`: `/^(\d{1,3}\.){3}\d{1,3}\/\d{1,2}$/`.
unfoldable pub is_cidr : Text → Bool
is_cidr s = is_prefix_length (then_part b'/' (then_part b'.' (then_part b'.' (part b'.' s))))

pub record GroupForm : Type 0 where
  pub name : Text
  pub vpn_subnet : Text

abbrev pub two_or_more : Text → Bool
two_or_more v = leb 2 (length (trim v))

-- `validate`.
unfoldable pub group_valid : GroupForm → Bool
unfolding trim is_cidr
group_valid v = two_or_more v.name && (is_empty (trim v.vpn_subnet) || is_cidr (trim v.vpn_subnet))

-- What a creation sends.
pub record NewGroup : Type 0 where
  pub name : Text
  pub vpn_subnet : Option Text

unfoldable pub submit_group : GroupForm → Option NewGroup
unfolding group_valid trim
submit_group v =
    if group_valid v
    then some (record { name = v.name; vpn_subnet = or_null (trim v.vpn_subnet) })
    else none

unfoldable create_request : Option String → NewGroup → MutationHook
create_request tenant_id g =
    create_group tenant_id
      (obj (keyed "name" (str g.name) (keyed "vpn_subnet" (text_json g.vpn_subnet) end)))

unfoldable submit_rename : Option String → String → Text → Option MutationHook
unfolding trim
submit_rename tenant_id group_id name =
    if two_or_more name
    then some (rename_group tenant_id (group_id, obj (keyed "name" (str name) end)))
    else none

unfoldable submit_tenant : Text → Option MutationHook
unfolding trim
submit_tenant name =
    if two_or_more name then some (create_tenant (obj (keyed "name" (str name) end))) else none
