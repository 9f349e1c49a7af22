-- ===== src/Policy/Duplicate/Laws.antt =====
-- Which policy the modal can load.
use mantis_dns.Base.{
  [], ◌∷◌, keep_if, Bool-cases, Bool, true, false, not, Option, none, some, List, ◌≡◌, refl, arith,
  inl, inr, ap, ◌∙◌, sym, any,
}
use mantis_dns.Base.Text.{Text, text_eq, text_eq_sound}
use mantis_dns.Policy.Editor.{PolicyOut}
use mantis_dns.Policy.Duplicate.{
  Group, Modal, Answers, group_options, source_policy, closed, handle_close, choose_tenant,
  choose_group, confirm, taken, groups_of, policy_for,
}

abbrev pub offers : Text → Answers → Option Text → Text → Bool
unfolding group_options
offers exclude answers tenant id = any (λ g. text_eq g.id id) (group_options exclude answers tenant)

-- One action of the user, on the answers that the queries have then. A select gives one of its
-- options, or nothing where it is cleared.
pub data Step (exclude : Text) (answers : Answers) : Modal → Modal → Type 0 where
  opens : (m : Modal) → Step exclude answers m (record m { opened = true })
  closes : (m : Modal) → Step exclude answers m (handle_close m)
  tenant_chosen :
      (tenant : Option Text) (m : Modal) → Step exclude answers m (choose_tenant tenant m)
  group_chosen :
      (id : Text) (m : Modal)
      → offers exclude answers m.tenant_id id ≡ true
      → Step exclude answers m (choose_group (some id) m)
  group_cleared : (m : Modal) → Step exclude answers m (choose_group none m)
  confirmed : (m : Modal) → Step exclude answers m (confirm answers m).0

-- The queries list, under a tenant, only groups of that tenant.
abbrev pub IsHonest : (Text → Text → Bool) → Answers → Type 0
IsHonest belongs answers =
    (tenant id : Text)
    → any (λ g. text_eq g.id id) (groups_of answers (some tenant)) ≡ true
    → belongs tenant id ≡ true

-- Any sequence of actions, with answers that may change in between.
pub data Reached (exclude : Text) (belongs : Text → Text → Bool) : Modal → Type 0 where
  mounted : Reached exclude belongs closed
  next :
      (answers : Answers) (m n : Modal)
      → IsHonest belongs answers
      → Reached exclude belongs m
      → Step exclude answers m n
      → Reached exclude belongs n

-- A group that belongs to the tenant, and is another than the one that is edited.
pub record IsOther (exclude : Text) (belongs : Text → Text → Bool) (tenant : Option Text)
    (id : Text) : Type 0 where
  pub of_tenant : Text
  pub present : tenant ≡ some of_tenant
  pub member : belongs of_tenant id ≡ true
  pub other : text_eq id exclude ≡ false

abbrev IsChosen : Text → (Text → Text → Bool) → Option Text → Option Text → Type 0
IsChosen exclude belongs tenant none = Unit {0}
IsChosen exclude belongs tenant (some id) = IsOther exclude belongs tenant id

any-kept :
    (exclude id : Text) (gs : List Group)
    → any (λ g. text_eq g.id id) (keep_if (λ g. not (text_eq g.id exclude)) gs) ≡ true
    → (any (λ g. text_eq g.id id) gs ≡ true) × (text_eq id exclude ≡ false)
any-kept exclude id [] h = ground arith
any-kept exclude id (g ∷ gs) h = elim (Bool-cases (text_eq g.id id)) [
  | inl e ↦ elim (Bool-cases (text_eq g.id exclude)) [
    | inl d ↦ let (listed, other) = any-kept exclude id gs (ground arith) in (ground arith, other)
    | inr d ↦
        (ground arith, ap (λ (t : Text). text_eq t exclude) (sym (text_eq_sound g.id id e)) ∙ d)
  ]
  | inr e ↦ let (listed, other) = any-kept exclude id gs (ground arith) in (ground arith, other)
]

offers-IsOther :
    (exclude : Text) (belongs : Text → Text → Bool) (answers : Answers) (tenant : Option Text)
    (id : Text)
    → IsHonest belongs answers
    → offers exclude answers tenant id ≡ true
    → IsOther exclude belongs tenant id
unfolding group_options
offers-IsOther exclude belongs answers none id honest h = ground arith
offers-IsOther exclude belongs answers (some tenant) id honest h =
    let (listed, other) = any-kept exclude id (groups_of answers (some tenant)) h in
    record { of_tenant = tenant; present = refl; member = honest tenant id listed; other = other }

taken-IsChosen :
    (exclude : Text) (belongs : Text → Text → Bool) (m : Modal) (q : Option PolicyOut)
    → IsChosen exclude belongs m.tenant_id m.group_id
    → IsChosen exclude belongs (taken m q).0.tenant_id (taken m q).0.group_id
taken-IsChosen exclude belongs m none i = i
taken-IsChosen exclude belongs m (some q) i = tt

Step-IsChosen :
    (exclude : Text) (belongs : Text → Text → Bool) (answers : Answers) (m n : Modal)
    → IsHonest belongs answers
    → IsChosen exclude belongs m.tenant_id m.group_id
    → Step exclude answers m n
    → IsChosen exclude belongs n.tenant_id n.group_id
unfolding choose_tenant choose_group handle_close confirm
Step-IsChosen exclude belongs answers m n honest i (opens _) = i
Step-IsChosen exclude belongs answers m n honest i (closes _) = tt
Step-IsChosen exclude belongs answers m n honest i (tenant_chosen tenant _) = tt
Step-IsChosen exclude belongs answers m n honest i (group_chosen id _ h) =
    offers-IsOther exclude belongs answers m.tenant_id id honest h
Step-IsChosen exclude belongs answers m n honest i (group_cleared _) = tt
Step-IsChosen exclude belongs answers m n honest i (confirmed _) =
    taken-IsChosen exclude belongs m (source_policy answers m) i

Reached-IsChosen :
    (exclude : Text) (belongs : Text → Text → Bool) (m : Modal)
    → Reached exclude belongs m
    → IsChosen exclude belongs m.tenant_id m.group_id
Reached-IsChosen exclude belongs m mounted = tt
Reached-IsChosen exclude belongs m (next answers k n honest r s) =
    Step-IsChosen exclude belongs answers k m honest (Reached-IsChosen exclude belongs k r) s

-- Where a loaded policy comes from.
pub record Loaded (exclude : Text) (belongs : Text → Text → Bool) (answers : Answers) (m : Modal)
    (q : PolicyOut) : Type 0 where
  pub id : Text
  pub chosen : m.group_id ≡ some id
  pub group : IsOther exclude belongs m.tenant_id id
  pub policy : answers.policy id ≡ some q

loaded :
    (exclude : Text) (belongs : Text → Text → Bool) (answers : Answers) (m : Modal) (q : PolicyOut)
    (group : Option Text)
    → m.group_id ≡ group
    → IsChosen exclude belongs m.tenant_id group
    → policy_for answers group ≡ some q
    → Loaded exclude belongs answers m q
loaded exclude belongs answers m q none e i h = ground arith
loaded exclude belongs answers m q (some id) e i h = record {
  id = id;
  chosen = e;
  group = i;
  policy = h;
}

taken-some :
    (m : Modal) (r : Option PolicyOut) (q : PolicyOut)
    → (taken m r).1 ≡ some q
    → (r ≡ some q) × ((taken m r).0 ≡ closed)
taken-some m none q h = ground arith
taken-some m (some r) q h = (h, refl)

-- The groups belong to tenants in any way, and the queries, whose answers may change between the
-- actions of the user, list under a tenant only groups of that tenant. In every state that the actions
-- lead to, a policy that `confirm` gives to the editor is the one that is there for the chosen group,
-- which belongs to the tenant that is chosen then and is not the group that is edited. The modal is
-- closed then, with nothing chosen.
pub confirm-Loaded :
    (exclude : Text) (belongs : Text → Text → Bool) (answers : Answers) (m : Modal) (q : PolicyOut)
    → Reached exclude belongs m
    → (confirm answers m).1 ≡ some q
    → Loaded exclude belongs answers m q × ((confirm answers m).0 ≡ closed)
unfolding confirm source_policy
confirm-Loaded exclude belongs answers m q r h =
    let (e, after) = taken-some m (policy_for answers m.group_id) q h in
    (
      loaded exclude belongs answers m q m.group_id refl (Reached-IsChosen exclude belongs m r) e,
      after,
    )
