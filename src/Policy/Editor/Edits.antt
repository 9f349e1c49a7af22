-- ===== src/Policy/Editor/Edits.antt =====
-- What the edits of a policy do to its categories and overrides.
use mantis_dns.Base.{
  Bool, true, not, ◌&&◌, Option, none, some, List, [], ◌∷◌, ◌++◌, keep_if, all, ◌≡◌, refl, arith,
  if◌then◌else◌,
}
use mantis_dns.Base.Text.{Text, codes, text_eq, text_eq_sound, text_eq_refl}
use mantis_dns.Policy.Domain.{Kind, Override}
use mantis_dns.Policy.Editor.{CategoryToggle, set_category_action, remove_override, add_override}

-- `categoryToggles.find((c) => c.category_id === id)?.action`; `none` is shown as "off".
abbrev pub action_of : Text → List CategoryToggle → Option Text
action_of i [] = none
action_of i (c ∷ cs) = if text_eq c.category_id i then some c.action else action_of i cs

action_of-append :
    (i : Text) (xs ys : List CategoryToggle)
    → action_of i (xs ++ ys) ≡ elim (action_of i xs) [ none ↦ action_of i ys | some a ↦ some a ]
action_of-append i [] ys = refl
action_of-append i (x ∷ xs) ys = ground (arith, action_of-append i xs ys)

action_of-keep_if :
    (i d : Text) (cs : List CategoryToggle)
    → action_of i (keep_if (λ c. not (text_eq c.category_id d)) cs)
      ≡ (if text_eq d i then none else action_of i cs)
action_of-keep_if i d [] = ground arith
action_of-keep_if i d (c ∷ cs) = ground (
  arith,
  text_eq_sound d i,
  text_eq_sound c.category_id d,
  text_eq_sound c.category_id i,
  text_eq_refl i,
  action_of-keep_if i d cs,
)

-- After `setCategoryAction` the category has the action, or none if it is "off", and every other
-- category has the action that it had.
pub action_of-set_category_action :
    (i d action : Text) (cs : List CategoryToggle)
    → action_of i (set_category_action d action cs) ≡ (
        if text_eq d i
        then (if text_eq action (codes "off") then none else some action)
        else action_of i cs)
unfolding set_category_action
action_of-set_category_action i d action cs = ground (
  arith,
  action_of-keep_if i d cs,
  action_of-append i (keep_if (λ c. not (text_eq c.category_id d)) cs)
      (record { category_id = d; action = action } ∷ []),
)

-- The kind of the override of a domain.
abbrev pub kind_of : Text → List Override → Option Kind
kind_of d [] = none
kind_of d (o ∷ os) = if text_eq o.domain d then some o.kind else kind_of d os

-- No domain has two overrides.
abbrev one_each : List Override → Bool
one_each [] = true
one_each (o ∷ os) = all (λ x. not (text_eq x.domain o.domain)) os && one_each os

kind_of-append :
    (d : Text) (xs ys : List Override)
    → kind_of d (xs ++ ys) ≡ elim (kind_of d xs) [ none ↦ kind_of d ys | some a ↦ some a ]
kind_of-append d [] ys = refl
kind_of-append d (x ∷ xs) ys = ground (arith, kind_of-append d xs ys)

-- After an override is removed its domain has none, and every other domain has the one that it had.
kind_of-remove_override :
    (d e : Text) (os : List Override)
    → kind_of d (remove_override e os) ≡ (if text_eq e d then none else kind_of d os)
unfolding remove_override
kind_of-remove_override d e [] = ground arith
kind_of-remove_override d e (o ∷ os) = ground (
  arith,
  text_eq_sound e d,
  text_eq_sound o.domain d,
  text_eq_sound o.domain e,
  text_eq_refl d,
  kind_of-remove_override d e os,
)

-- An override that is added takes the place of the one of its domain, and the others stay.
pub kind_of-add_override :
    (d : Text) (o : Override) (os : List Override)
    → kind_of d (add_override o os) ≡ (if text_eq o.domain d then some o.kind else kind_of d os)
unfolding add_override remove_override
kind_of-add_override d o os = ground (
  arith,
  kind_of-remove_override d o.domain os,
  kind_of-append d (keep_if (λ x. not (text_eq x.domain o.domain)) os) (o ∷ []),
)
