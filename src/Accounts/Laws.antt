-- ===== src/Accounts/Laws.antt =====
-- What the forms of the accounts send, and what they show.
use mantis_dns.Base.{
  str_eq, true, false, none, some, List, [], ◌∷◌, ◌++◌, ◌≡◌, refl, ap, ◌∙◌, arith,
}
use mantis_dns.Api.Outcome.{is_value}
use mantis_dns.Forms.{Form}
use mantis_dns.Forms.EditModal.{Event, open_edit, close, edit_run, start, reopened-keyed}
use mantis_dns.Forms.Optional.{is_stored, or_null-or_blank}
use mantis_dns.Accounts.Users.{User, EditForm, edit_values, edit_body, edit_user_modal}
use mantis_dns.Accounts.Groups.{GroupForm, NewGroup, is_cidr, submit_group, group_valid}
use mantis_dns.Accounts.Clients.{ClientForm, registration}

-- Whatever has been done in it before, the modal of a user that is closed and opened for a user shows
-- that user's role and tenant: saved without a change they are sent as they are, where the tenant is
-- stored as null rather than as an empty text, and the user's id is not the word none.
pub edit_user_modal-unchanged :
    (evs : List (Event User EditForm)) (u : User)
    → str_eq "none" u.id ≡ false
    → is_stored u.tenant_id ≡ true
    → let e =
        edit_run User EditForm edit_user_modal
          (evs ++ close ∷ open_edit u ∷ [])
          (start User EditForm edit_user_modal) in
      edit_body e.form.values ≡ record { role = u.role; tenant_id = u.tenant_id }
unfolding edit_user_modal edit_values edit_body
edit_user_modal-unchanged evs u other stored =
    ap (λ (f : Form EditForm). edit_body f.values)
      (reopened-keyed User EditForm edit_user_modal evs u other)
    ∙ rw (or_null-or_blank u.tenant_id stored) refl

-- A group is created with no subnet, or with one in CIDR form and without white space around it.
pub submit_group-is_cidr :
    (v : GroupForm) (g : NewGroup)
    → submit_group v ≡ some g
    → elim g.vpn_subnet [ none ↦ true | some s ↦ is_cidr s ] ≡ true
unfolding submit_group group_valid
submit_group-is_cidr v g h = ground arith

-- The form of a client throws, and sends nothing, exactly when its device type has been cleared.
pub registration-cleared :
    (v : ClientForm)
    → is_value (registration v) ≡ elim v.device_type [ none ↦ false | some d ↦ true ]
unfolding registration
registration-cleared v = ground arith
