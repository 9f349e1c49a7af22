-- ===== src/Policy/Duplicate.antt =====
-- apps/ui/src/pages/DuplicatePolicyModal.tsx: the modal that loads the policy of another group.
pub mod Laws
use mantis_dns.Base.{
  Bool, true, false, not, Option, none, some, List, [], ◌∷◌, keep_if, if◌then◌else◌,
}
use mantis_dns.Base.Text.{Text, text_eq}
use mantis_dns.Policy.Editor.{PolicyOut}

-- `GroupOut`, less what the modal does not read.
pub record Group : Type 0 where
  pub id : Text
  pub name : Text

pub record Modal : Type 0 where
  pub opened : Bool
  pub tenant_id : Option Text
  pub group_id : Option Text

-- What the queries of the modal have, by the id that they are given; `none` while it is not there.
pub record Answers : Type 0 where
  pub groups : Text → Option (List Group)
  pub policy : Text → Option PolicyOut

abbrev pub groups_of : Answers → Option Text → List Group
groups_of answers none = []
groups_of answers (some tenant) = elim (answers.groups tenant) [ none ↦ [] | some gs ↦ gs ]

-- `groupOptions`.
unfoldable pub group_options : Text → Answers → Option Text → List Group
group_options exclude_group_id answers tenant =
    keep_if (λ g. not (text_eq g.id exclude_group_id)) (groups_of answers tenant)

abbrev pub policy_for : Answers → Option Text → Option PolicyOut
policy_for answers none = none
policy_for answers (some g) = answers.policy g

-- `sourcePolicy`.
unfoldable pub source_policy : Answers → Modal → Option PolicyOut
source_policy answers m = policy_for answers m.group_id

abbrev pub closed : Modal
closed = record { opened = false; tenant_id = none; group_id = none }

-- `handleClose`, and the `onChange` of the two selects.
unfoldable pub handle_close : Modal → Modal
handle_close m = closed

unfoldable pub choose_tenant : Option Text → Modal → Modal
choose_tenant tenant m = record m { tenant_id = tenant; group_id = none }

unfoldable pub choose_group : Option Text → Modal → Modal
choose_group group m = record m { group_id = group }

abbrev pub taken : Modal → Option PolicyOut → Modal × Option PolicyOut
taken m none = (m, none)
taken m (some q) = (closed, some q)

-- `confirm`: with what `onSelect` is given.
unfoldable pub confirm : Answers → Modal → Modal × Option PolicyOut
unfolding source_policy
confirm answers m = taken m (source_policy answers m)
