-- ===== src/Navigation/UnsavedGuard.antt =====
-- apps/ui/src/hooks/useUnsavedChangesGuard.ts: the module-level `isBlocked`, which the mounted editor
-- keeps, and `confirmNavigation`. The browser's own back and forward are not intercepted, as there.
use mantis_dns.Base.{
  Bool, true, false, not, Option, none, some, List, [], ◌∷◌, ◌≡◌, refl, arith, if◌then◌else◌,
}
use mantis_dns.Base.Text.{Text}

-- `editor` is the `dirty` of the mounted editor as its effects last saw it, `modal` a navigation that
-- waits for the user's confirmation, and `visited` the paths that were gone to, last first.
pub record Guard : Type 0 where
  pub is_blocked : Bool
  pub editor : Option Bool
  pub modal : Option Text
  pub visited : List Text

unfoldable pub fresh : Guard
fresh = record { is_blocked = false; editor = none; modal = none; visited = [] }

pub data Event : Type 0 where
  -- The effects of `useUnsavedChangesGuard(dirty)` run, on mount or when `dirty` has changed.
  effect : Bool → Event
  -- The editor is unmounted: the clean-up of the effect runs.
  unmount : Event
  -- `confirmNavigation(() => navigate(path))`.
  navigate : Text → Event
  -- The buttons of the modal.
  confirm cancel : Event

-- `confirmNavigation(proceed)`.
unfoldable pub confirm_navigation : Text → Guard → Guard
confirm_navigation path g =
    if not g.is_blocked
    then record g { visited = path ∷ g.visited }
    else record g { modal = some path }

unfoldable pub step : Event → Guard → Guard
unfolding confirm_navigation
step (effect dirty) g = record g { is_blocked = dirty; editor = some dirty }
step unmount g = record g { is_blocked = false; editor = none }
step (navigate path) g = confirm_navigation path g
step confirm g = elim g.modal [
  | none ↦ g
  | some path ↦ record g { modal = none; visited = path ∷ g.visited }
]
step cancel g = record g { modal = none }

unfoldable pub run : List Event → Guard → Guard
unfolding step
run [] g = g
run (e ∷ es) g = run es (step e g)

-- `onBeforeUnload`: whether the browser asks before the tab is closed.
unfoldable pub asks_before_unload : Guard → Bool
asks_before_unload g = elim g.editor [ none ↦ false | some dirty ↦ dirty ]

abbrev IsTracked : Guard → Type 0
IsTracked g = g.is_blocked ≡ asks_before_unload g

step-IsTracked : (e : Event) (g : Guard) → IsTracked g → IsTracked (step e g)
unfolding step asks_before_unload
step-IsTracked (effect dirty) g h = refl
step-IsTracked e g h = ground arith

run-IsTracked : (es : List Event) (g : Guard) → IsTracked g → IsTracked (run es g)
unfolding run
run-IsTracked [] g h = h
run-IsTracked (e ∷ es) g h = run-IsTracked es (step e g) (step-IsTracked e g h)

fresh-IsTracked : IsTracked fresh
unfolding fresh asks_before_unload
fresh-IsTracked = refl

navigate-tracked :
    (g : Guard) (path : Text)
    → IsTracked g
    → let after = step (navigate path) g in
      (after.visited ≡ (if asks_before_unload g then g.visited else path ∷ g.visited))
      × (asks_before_unload g ≡ true
          → ((step cancel after).visited ≡ g.visited)
            × ((step confirm after).visited ≡ path ∷ g.visited))
unfolding step
navigate-tracked g path h = (ground arith, λ dirty. (ground arith, ground arith))

-- After any history, a navigation is gone through at once exactly when no mounted editor is dirty.
-- Otherwise nothing is visited yet, `Stay` leaves it so, and `Discard changes` visits the path.
pub navigate-run :
    (es : List Event) (path : Text)
    → let g = run es fresh in
      let after = step (navigate path) g in
      (after.visited ≡ (if asks_before_unload g then g.visited else path ∷ g.visited))
      × (asks_before_unload g ≡ true
          → ((step cancel after).visited ≡ g.visited)
            × ((step confirm after).visited ≡ path ∷ g.visited))
navigate-run es path = navigate-tracked (run es fresh) path (run-IsTracked es fresh fresh-IsTracked)
