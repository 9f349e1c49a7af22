-- ===== src/Accounts/Users.antt =====
-- apps/ui/src/pages/UsersPage.tsx.
use mantis_dns.Base.{
  ℕ, String, str_eq, Bool, false, not, ◌&&◌, Option, none, some, List, [], length, if◌then◌else◌,
  leb, keep_if,
}
use mantis_dns.Base.Text.{Text, codes, is_empty, text_eq, trim}
use mantis_dns.Base.Sort.{sort_by}
use mantis_dns.Base.Json.{Json, str, obj, keyed, end}
use mantis_dns.Api.Mutations.{MutationHook, create_user, update_user, delete_user}
use mantis_dns.Auth.Roles.{AuthUser}
use mantis_dns.Forms.EditModal.{Modal}
use mantis_dns.Forms.Optional.{or_blank, or_null, text_json}

-- `UserOut`.
pub record User : Type 0 where
  pub id : String
  pub email : Text
  pub role : Text
  pub tenant_id : Option Text

pub record AddForm : Type 0 where
  pub email : Text
  pub password : Text
  pub role : Text
  pub tenant_id : Text

-- `validate`.
unfoldable pub add_valid : AddForm → Bool
unfolding trim
add_valid v = leb 3 (length (trim v.email)) && leb 12 (length v.password) && not (is_empty v.role)

-- `{ ...values, tenant_id: values.tenant_id || null }`.
unfoldable pub add_body : AddForm → Json
add_body v = obj (
    keyed "email" (str v.email) (
      keyed "password" (str v.password)
        (keyed "role" (str v.role) (keyed "tenant_id" (text_json (or_null v.tenant_id)) end))))

unfoldable submit_add : AddForm → Option MutationHook
unfolding add_valid add_body
submit_add v = if add_valid v then some (create_user (add_body v)) else none

pub record EditForm : Type 0 where
  pub role : Text
  pub tenant_id : Text

unfoldable pub edit_values : Option User → EditForm
edit_values none = record { role = codes "viewer"; tenant_id = [] }
edit_values (some u) = record { role = u.role; tenant_id = or_blank u.tenant_id }

-- What an update sends.
pub record UserUpdate : Type 0 where
  pub role : Text
  pub tenant_id : Option Text

unfoldable pub edit_body : EditForm → UserUpdate
edit_body v = record { role = v.role; tenant_id = or_null v.tenant_id }

unfoldable submit_edit : User → EditForm → MutationHook
unfolding edit_body
submit_edit u v =
    let body = edit_body v in
    update_user
      (u.id, obj (keyed "role" (str body.role) (keyed "tenant_id" (text_json body.tenant_id) end)))

abbrev pub key_of : Option User → String
key_of none = "none"
key_of (some u) = u.id

-- `<EditUserModal key={editUser?.id ?? "none"} user={editUser} …/>`.
unfoldable pub edit_user_modal : Modal User EditForm
unfolding edit_values
edit_user_modal = record { initial_values = edit_values; key = key_of }

-- `u.id === currentUser?.id`.
abbrev pub is_self : Option AuthUser → User → Bool
is_self none u = false
is_self (some me) u = str_eq u.id me.id

-- The button of a row: nothing for the user's own account.
unfoldable pub delete_row : Option AuthUser → User → Option MutationHook
delete_row current u = if not (is_self current u) then some (delete_user u.id) else none

unfoldable sorted : (Text → Text → Bool) → List User → List User
sorted locale_le users = sort_by (λ a b. locale_le a.email b.email) users

unfoldable by_role : List User → Text → ℕ
by_role users r = length (keep_if (λ u. text_eq u.role r) users)
