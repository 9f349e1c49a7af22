-- ===== src/Feeds/Selection/Laws.antt =====
-- The boxes of the feeds' table, and the operations on all selected feeds.
use mantis_dns.Base.{
  String, str_eq, eq_refl, eq_iff, Bool, true, false, not, ◌&&◌, ◌||◌, List, [], ◌∷◌, any, length,
  if◌then◌else◌, ◌==◌, ◌≡◌, refl, arith,
}
use mantis_dns.Base.Sets.{IsEquality, has, has-add_all, has-drop_all, has-add, has-drop}
use mantis_dns.Feeds.Selection.{
  toggle_selected, all_selected, set_group_selected, click_box, is_checked, is_indeterminate,
}

pub str_eq-IsEquality : IsEquality str_eq
str_eq-IsEquality = record { reflexive = eq_refl; sound = λ x y. (eq_iff x y).0 }

-- A click on the box of some rows selects all of them if they were not all selected, and none of
-- them if they were; every other row stays as it was.
pub has-click_box :
    (ids selected : List String) (id : String)
    → has str_eq (click_box ids selected) id
      ≡ (if has str_eq ids id then not (all_selected ids selected) else has str_eq selected id)
unfolding click_box set_group_selected
has-click_box ids selected id = ground (
  arith,
  has-add_all str_eq str_eq-IsEquality selected ids id,
  has-drop_all str_eq str_eq-IsEquality selected ids id,
)

-- A click on the box of one row changes that row alone.
pub has-toggle_selected :
    (id : String) (selected : List String) (other : String)
    → has str_eq (toggle_selected id selected) other
      ≡ (if str_eq id other then not (has str_eq selected id) else has str_eq selected other)
unfolding toggle_selected
has-toggle_selected id selected other = ground (
  arith,
  has-add str_eq str_eq-IsEquality selected id other,
  has-drop str_eq str_eq-IsEquality selected id other,
  eq_iff id other,
)

all_selected-const :
    (b : Bool) (ids selected : List String)
    → ((id : String) → has str_eq ids id ≡ true → has str_eq selected id ≡ b)
    → (all_selected ids selected ≡ (length ids == 0 || b))
      × (any (λ id. has str_eq selected id) ids ≡ (not (length ids == 0) && b))
all_selected-const b [] selected h = (refl, refl)
all_selected-const b (i ∷ ids) selected h =
    let (every, some_of) = all_selected-const b ids selected (λ id e. h id (ground arith)) in
    ground (arith, h i, eq_refl i)

clicked :
    (ids selected : List String) (id : String)
    → has str_eq ids id ≡ true
    → has str_eq (click_box ids selected) id ≡ not (all_selected ids selected)
clicked ids selected id h = ground (arith, has-click_box ids selected id)

-- A click turns the box of at least one row from checked to not checked, and from anything else to
-- checked; afterwards it is never indeterminate.
pub is_checked-click_box :
    (id : String) (ids selected : List String)
    → (is_checked (id ∷ ids) (click_box (id ∷ ids) selected) ≡ not (is_checked (id ∷ ids) selected))
      × (is_indeterminate (id ∷ ids) (click_box (id ∷ ids) selected) ≡ false)
unfolding is_checked is_indeterminate
is_checked-click_box id ids selected =
    let (every, some_of) =
      all_selected-const (not (all_selected (id ∷ ids) selected)) (id ∷ ids)
        (click_box (id ∷ ids) selected) (clicked (id ∷ ids) selected) in
    ground arith
