-- ===== src/Dashboard/Layout.antt =====
-- apps/ui/src/pages/DashboardPage.tsx: `updateConfig`, `toggleWidget`, `moveWidget` and `resetConfig`.
-- The page's state is the configuration together with what `localStorage` holds.
pub mod Moves
pub mod Laws
use mantis_dns.Base.{
  ℕ, zero, suc, ◌+◌, ◌-◌, Bool, true, false, not, Option, none, some, List, [], ◌∷◌, map,
  if◌then◌else◌, ◌==◌, ltb, leb, length, get_elem?,
}
use mantis_dns.Base.Text.{Text, text_eq}
use mantis_dns.Base.Platform.{Platform}
use mantis_dns.Dashboard.WidgetConfig.{
  WidgetConfig, default_config, load_widget_config, save_widget_config,
}

-- `w.id === id ? { ...w, visible: !w.visible } : w` for each entry.
unfoldable pub toggle_widget : Text → List WidgetConfig → List WidgetConfig
toggle_widget i [] = []
toggle_widget i (w ∷ ws) =
    (if text_eq w.id i then record w { visible = not w.visible } else w) ∷ toggle_widget i ws

-- `findIndex((w) => w.id === id)`; `none` is -1.
unfoldable pub find_index : Text → List WidgetConfig → Option ℕ
find_index i [] = none
find_index i (w ∷ ws) =
    if text_eq w.id i
    then some 0
    else elim (find_index i ws) [ none ↦ none | some n ↦ some (suc n) ]

-- A write into an array, inside its bounds.
unfoldable pub set : List WidgetConfig → ℕ → WidgetConfig → List WidgetConfig
set [] i v = []
set (w ∷ ws) zero v = v ∷ ws
set (w ∷ ws) (suc i) v = w ∷ set ws i v

-- `[next[idx], next[swap]] = [next[swap], next[idx]]`.
unfoldable pub exchange : ℕ → ℕ → List WidgetConfig → List WidgetConfig
unfolding set
exchange i j ws = elim (get_elem? ws i) [
  | none ↦ ws
  | some a ↦ elim (get_elem? ws j) [ none ↦ ws | some b ↦ set (set ws i b) j a ]
]

-- The `dir` of `moveWidget`: -1 or 1.
pub data Direction : Type 0 where
  up down : Direction

-- `idx + dir`, where it is not below 0.
abbrev neighbour : Direction → ℕ → Option ℕ
neighbour up zero = none
neighbour up (suc i) = some i
neighbour down i = some (i + 1)

-- `moveWidget`; `none` where it returns early, and nothing is updated.
unfoldable pub move_widget : Text → Direction → List WidgetConfig → Option (List WidgetConfig)
unfolding find_index exchange
move_widget id dir ws = elim (find_index id ws) [
  | none ↦ none
  | some idx ↦ elim (neighbour dir idx) [
    | none ↦ none
    | some swap ↦ if leb (length ws) swap then none else some (exchange idx swap ws)
  ]
]

pub record DashboardState : Type 0 where
  pub config : List WidgetConfig
  pub stored : Option Text

pub data Action : Type 0 where
  toggle : Text → Action
  move : Text → Direction → Action
  reset : Action

-- The configuration that the handler gives to `updateConfig`, if it calls it.
abbrev pub next_config : Action → List WidgetConfig → Option (List WidgetConfig)
next_config (toggle i) ws = some (toggle_widget i ws)
next_config (move i d) ws = move_widget i d ws
next_config reset ws = some default_config

module _ (p : Platform) where
  -- The page is opened: `useState(loadWidgetConfig)`.
  unfoldable pub open_dashboard : Option Text → DashboardState
  open_dashboard stored = record { config = load_widget_config p stored; stored = stored }

  -- `updateConfig(next)`.
  unfoldable pub update_config : List WidgetConfig → DashboardState → DashboardState
  update_config next s = record { config = next; stored = save_widget_config p next }

  unfoldable pub act : Action → DashboardState → DashboardState
  unfolding update_config
  act a s = elim (next_config a s.config) [ none ↦ s | some next ↦ update_config next s ]

  unfoldable pub act_all : List Action → DashboardState → DashboardState
  unfolding act
  act_all [] s = s
  act_all (a ∷ as') s = act_all as' (act a s)
