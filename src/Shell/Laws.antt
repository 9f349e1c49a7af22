-- ===== src/Shell/Laws.antt =====
-- The menu: what is highlighted, and where a click leads.
use mantis_dns.Base.{
  Bool, true, not, ◌&&◌, ◌||◌, Option, List, [], ◌∷◌, keep_if, all, length, ◌≤◌, ◌≡◌, refl, arith,
}
use mantis_dns.Base.Text.{Text, starts_with}
use mantis_dns.Auth.Roles.{AuthUser}
use mantis_dns.Navigation.UnsavedGuard.{Guard, navigate, step}
use mantis_dns.Shell.{NavItem, nav_items, visible_nav_items, is_active, click_item, allows}

comparable :
    (s a b : Text)
    → starts_with s a ≡ true
    → starts_with s b ≡ true
    → (starts_with a b || starts_with b a) ≡ true
comparable s [] [] h k = refl
comparable s [] (d ∷ b) h k = refl
comparable s (c ∷ a) [] h k = refl
comparable [] (c ∷ a) (d ∷ b) h k = ground arith
comparable (x ∷ s) (c ∷ a) (d ∷ b) h k = ground (arith, comparable s a b)

abbrev unrelated : NavItem → NavItem → Bool
unrelated a b = not (starts_with a.to b.to || starts_with b.to a.to)

abbrev apart : List NavItem → Bool
apart [] = true
apart (a ∷ items) = all (unrelated a) items && apart items

inactive :
    (pathname : Text) (p : NavItem → Bool) (a : NavItem) (items : List NavItem)
    → is_active pathname a ≡ true
    → all (unrelated a) items ≡ true
    → length (keep_if (is_active pathname) (keep_if p items)) ≡ 0
unfolding is_active
inactive pathname p a [] h k = refl
inactive pathname p a (b ∷ items) h k =
    ground (arith, comparable pathname a.to b.to, inactive pathname p a items)

active-apart :
    (pathname : Text) (p : NavItem → Bool) (items : List NavItem)
    → apart items ≡ true
    → length (keep_if (is_active pathname) (keep_if p items)) ≤ 1
active-apart pathname p [] h = ground arith
active-apart pathname p (a ∷ items) h =
    ground (arith, inactive pathname p a items, active-apart pathname p items)

apart-nav_items : apart nav_items ≡ true
unfolding nav_items
apart-nav_items = refl

-- At every path, and for every user or none, at most one item of the menu is highlighted.
pub is_active_unique :
    (pathname : Text) (user : Option AuthUser)
    → length (keep_if (is_active pathname) (visible_nav_items user)) ≤ 1
unfolding visible_nav_items
is_active_unique pathname user =
    active-apart pathname (λ i. allows user i.min_role) nav_items apart-nav_items

-- A click on an item is a navigation that unsaved edits hold up.
pub click_item-navigate : (i : NavItem) (g : Guard) → click_item i g ≡ step (navigate i.to) g
unfolding click_item step
click_item-navigate i g = ground arith
