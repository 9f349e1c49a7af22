-- ===== src/Tests/Pages.antt =====
-- The menu, and the cards and modals of the policy page, at concrete inputs.
use mathlib.Core.List.{Permᴰ}
use mantis_dns.Base.{
  Bool, ◌&&◌, ◌||◌, Bool-cases, inl, inr, arith, if◌then◌else◌, Option, true, none, some, List, [],
  ◌∷◌, keep_if, length, ◌≤◌, ◌≡◌, refl,
}
use mantis_dns.Base.Text.{Text, text_eq, codes}
use mantis_dns.Auth.Roles.{AuthUser, operator, has_role}
use mantis_dns.Shell.{is_active, visible_nav_items, nav_items}
use mantis_dns.Shell.Laws.{is_active_unique}
use mantis_dns.Policy.Editor.{PolicyOut, fail_closed}
use mantis_dns.Policy.Categories.{Category, privacy, security, shown_groups, tested_domain}
use mantis_dns.Policy.Categories.Laws.{card_rows, shown_groups-Permᴰ}
use mantis_dns.Policy.Duplicate.{
  Group, Modal, Answers, closed, choose_tenant, choose_group, confirm, group_options, source_policy,
}
use mantis_dns.Policy.Duplicate.Laws.{
  IsHonest, Reached, mounted, next, opens, tenant_chosen, group_chosen, offers, Loaded,
  confirm-Loaded,
}

abbrev operator_user : Option AuthUser
operator_user = some (record { id = "u1"; email = "a@b.c"; role = operator; tenant_id = none })

highlighted_zone :
    length (keep_if (is_active (codes "/zones/z1")) (visible_nav_items operator_user)) ≡ 1
unfolding is_active visible_nav_items nav_items has_role
highlighted_zone = refl

is_active_unique_example :
    length (keep_if (is_active (codes "/zones/z1")) (visible_nav_items operator_user)) ≤ 1
is_active_unique_example = is_active_unique (codes "/zones/z1") operator_user

abbrev categories : List Category
categories =
    record { id = codes "ads"; label = codes "Ads"; group = privacy }
    ∷ record { id = codes "malware"; label = codes "Malware"; group = security }
    ∷ record { id = codes "tracking"; label = codes "Tracking"; group = privacy }
    ∷ []

shown_groups-Permᴰ_example : Permᴰ (card_rows (shown_groups categories)) categories
shown_groups-Permᴰ_example = shown_groups-Permᴰ categories

typed_domain : tested_domain (codes " Ads.Example.com. ") ≡ some (codes "ads.example.com")
unfolding tested_domain
typed_domain = refl

abbrev strict : PolicyOut
strict = record {
  id = codes "p2";
  category_toggles = [];
  overrides = [];
  on_load_failure = fail_closed;
}

abbrev two_groups : List Group
two_groups =
    record { id = codes "g1"; name = codes "mine" }
    ∷ record { id = codes "g2"; name = codes "other" }
    ∷ []

abbrev groups_at : Text → Option (List Group)
groups_at tenant = if text_eq tenant (codes "t1") then some two_groups else none

abbrev answers : Answers
answers = record { groups = groups_at; policy = λ group. some strict }

-- Both groups are groups of the first tenant, and no tenant has another group.
abbrev belongs : Text → Text → Bool
belongs tenant id =
    text_eq tenant (codes "t1") && (text_eq (codes "g1") id || text_eq (codes "g2") id)

answers-IsHonest : IsHonest belongs answers
answers-IsHonest tenant id h = elim (Bool-cases (text_eq tenant (codes "t1"))) [
  | inl e ↦ ground arith
  | inr e ↦ ground arith
]

abbrev first : Modal
first = record closed { opened = true }

abbrev second : Modal
second = record first { tenant_id = some (codes "t1") }

abbrev chosen : Modal
chosen = record second { group_id = some (codes "g2") }

second-offers : offers (codes "g1") answers (some (codes "t1")) (codes "g2") ≡ true
unfolding group_options
second-offers = refl

chosen-Reached : Reached (codes "g1") belongs chosen
unfolding choose_tenant choose_group
chosen-Reached =
    next answers second chosen answers-IsHonest
      (next answers first second answers-IsHonest
        (next answers closed first answers-IsHonest mounted (opens closed))
        (tenant_chosen (some (codes "t1")) first))
      (group_chosen (codes "g2") second second-offers)

confirmed-strict : (confirm answers chosen).1 ≡ some strict
unfolding confirm source_policy
confirmed-strict = refl

confirm-Loaded_example :
    Loaded (codes "g1") belongs answers chosen strict × ((confirm answers chosen).0 ≡ closed)
confirm-Loaded_example =
    confirm-Loaded (codes "g1") belongs answers chosen strict chosen-Reached confirmed-strict
