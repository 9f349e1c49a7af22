-- ===== src/Tests/Accounts.antt =====
-- The pages of the accounts at concrete inputs.
use mantis_dns.Base.{none, some, [], ◌∷◌, ◌≡◌, refl}
use mantis_dns.Base.Text.{codes, trim}
use mantis_dns.Forms.EditModal.{open_edit, change, close, edit_run, start}
use mantis_dns.Accounts.Users.{User, EditForm, edit_body, edit_user_modal}
use mantis_dns.Accounts.Groups.{GroupForm, NewGroup, is_cidr, group_valid, submit_group}
use mantis_dns.Accounts.Clients.{ClientForm}
use mantis_dns.Accounts.Laws.{edit_user_modal-unchanged}

abbrev bob : User
bob = record {
  id = "u2";
  email = codes "bob@example.com";
  role = codes "operator";
  tenant_id = none;
}

abbrev changed : EditForm
changed = record { role = codes "admin"; tenant_id = codes "t1" }

edit_user_modal-unchanged_example :
    let e =
      edit_run User EditForm edit_user_modal
        (open_edit bob ∷ change changed ∷ close ∷ open_edit bob ∷ [])
        (start User EditForm edit_user_modal) in
    edit_body e.form.values ≡ record { role = codes "operator"; tenant_id = none }
edit_user_modal-unchanged_example =
    edit_user_modal-unchanged (open_edit bob ∷ change changed ∷ []) bob refl refl

abbrev typed : GroupForm
typed = record { name = codes "vpn"; vpn_subnet = codes " 10.8.1.0/24 " }

abbrev created : NewGroup
created = record { name = codes "vpn"; vpn_subnet = some (codes "10.8.1.0/24") }

typed_group : submit_group typed ≡ some created
unfolding submit_group group_valid is_cidr trim
typed_group = refl

abbrev cleared : ClientForm
cleared = record { hostname = codes "h"; owner = []; device_type = none; tags = [] }
