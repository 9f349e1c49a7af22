-- ===== src/Dashboard/Layout/Laws.antt =====
-- The dashboard's configuration under the actions of its settings drawer.
use mantis_dns.Base.{
  ℕ, zero, suc, ◌<◌, Option, none, some, List, [], ◌∷◌, ◌≡◌, refl, ◌∙◌, sym, ap, subst, arith, inl,
  inr, Option-cases, length,
}
use mantis_dns.Base.Text.{Text, text_eq_sound}
use mantis_dns.Base.Platform.{Platform, IsFaithful}
use mantis_dns.Dashboard.WidgetConfig.{WidgetConfig, has_id, ids_of, load_widget_config}
use mantis_dns.Dashboard.WidgetConfig.Merge.{Distinct, IsComplete, default_config-IsComplete}
use mantis_dns.Dashboard.WidgetConfig.Storage.{load_widget_config-save}
use mantis_dns.Dashboard.Layout.Moves.{
  swap_at, exchange_down, exchange_up, has_id-swap_at, Distinct-swap_at, length-swap_at,
  swap_at-swap_at, find_index_down, find_index_up,
}
use mantis_dns.Dashboard.Layout.{
  toggle_widget, find_index, Direction, up, down, move_widget, DashboardState, Action, toggle, move,
  reset, next_config, open_dashboard, update_config, act, act_all,
}

-- Switching a widget twice leaves the configuration as it was.
toggle_widget-toggle_widget :
    (i : Text) (ws : List WidgetConfig) → toggle_widget i (toggle_widget i ws) ≡ ws
unfolding toggle_widget
toggle_widget-toggle_widget i [] = refl
toggle_widget-toggle_widget i (w ∷ ws) =
    ground (arith, toggle_widget-toggle_widget i ws, text_eq_sound w.id i)

ids_of-toggle_widget : (i : Text) (ws : List WidgetConfig) → ids_of (toggle_widget i ws) ≡ ids_of ws
unfolding toggle_widget
ids_of-toggle_widget i [] = refl
ids_of-toggle_widget i (w ∷ ws) = ground (arith, ids_of-toggle_widget i ws)

Distinct-toggle_widget :
    (i : Text) (ws : List WidgetConfig) → Distinct ws → Distinct (toggle_widget i ws)
unfolding toggle_widget
Distinct-toggle_widget i [] d = tt
Distinct-toggle_widget i (w ∷ ws) d =
    ground (arith, ids_of-toggle_widget i ws, Distinct-toggle_widget i ws d.1)

-- The place of the exchange that a move makes, with the bounds that its guards ensure.
abbrev Swaps : Text → Direction → List WidgetConfig → ℕ → Type 0
Swaps id up ws k = find_index id ws ≡ some (suc k)
Swaps id down ws k = (find_index id ws ≡ some k) × (suc k < length ws)

move_widget-swap_at :
    (id : Text) (dir : Direction) (ws next : List WidgetConfig)
    → move_widget id dir ws ≡ some next
    → (k : ℕ) × (Swaps id dir ws k × (next ≡ swap_at k ws))
unfolding move_widget
move_widget-swap_at id up ws next h = elim (Option-cases (find_index id ws)) [
  | inl e ↦ ground arith
  | inr (zero, e) ↦ ground arith
  | inr (suc k, e) ↦ (k, (e, ground (arith, exchange_up k ws)))
]
move_widget-swap_at id down ws next h = elim (Option-cases (find_index id ws)) [
  | inl e ↦ ground arith
  | inr (k, e) ↦ (k, ((e, ground arith), ground (arith, exchange_down k ws)))
]

abbrev pub opposite : Direction → Direction
opposite up = down
opposite down = up

find_index-bound :
    (i : Text) (ws : List WidgetConfig) (k : ℕ) → find_index i ws ≡ some k → k < length ws
unfolding find_index
find_index-bound i [] k e = ground arith
find_index-bound i (w ∷ ws) k e = elim (Option-cases (find_index i ws)) [
  | inl n ↦ ground arith
  | inr (m, s) ↦ ground (arith, find_index-bound i ws m s)
]

-- In a configuration whose ids are distinct, a widget that was moved one place is back after a move
-- the other way, and so is every other one.
pub move_widget-opposite :
    (id : Text) (dir : Direction) (ws next : List WidgetConfig)
    → Distinct ws
    → move_widget id dir ws ≡ some next
    → move_widget id (opposite dir) next ≡ some ws
unfolding move_widget
move_widget-opposite id up ws next d h =
    let (k, (e, n)) = move_widget-swap_at id up ws next h in
    rw (n) (
      ground (
        arith,
        find_index_up id k ws e,
        find_index-bound id ws (suc k) e,
        length-swap_at k ws,
        exchange_down k (swap_at k ws),
        swap_at-swap_at k ws,
      ))
move_widget-opposite id down ws next d h =
    let (k, ((e, l), n)) = move_widget-swap_at id down ws next h in
    rw (n) (
      ground (
        arith,
        find_index_down id k ws d e l,
        length-swap_at k ws,
        exchange_up k (swap_at k ws),
        swap_at-swap_at k ws,
      ))

toggle_widget-IsComplete :
    (i : Text) (ws : List WidgetConfig) → IsComplete ws → IsComplete (toggle_widget i ws)
toggle_widget-IsComplete i ws c = record {
  covers = λ j. ap (has_id j) (ids_of-toggle_widget i ws) ∙ c.covers j;
  distinct = Distinct-toggle_widget i ws c.distinct;
}

swap_at-IsComplete : (k : ℕ) (ws : List WidgetConfig) → IsComplete ws → IsComplete (swap_at k ws)
swap_at-IsComplete k ws c = record {
  covers = λ j. has_id-swap_at j k ws ∙ c.covers j;
  distinct = Distinct-swap_at k ws c.distinct;
}

some-inj : {A : Type 0} {a b : A} → some a ≡ some b → a ≡ b
some-inj h = ground arith

-- Each action that updates a configuration of all the widgets of `WIDGET_DEFS`, each once, makes such
-- a configuration.
pub next_config-IsComplete :
    (a : Action) (ws next : List WidgetConfig)
    → IsComplete ws
    → next_config a ws ≡ some next
    → IsComplete next
next_config-IsComplete (toggle i) ws next c h =
    subst IsComplete (some-inj h) (toggle_widget-IsComplete i ws c)
next_config-IsComplete (move i d) ws next c h =
    let (k, (e, n)) = move_widget-swap_at i d ws next h in
    subst IsComplete (sym n) (swap_at-IsComplete k ws c)
next_config-IsComplete reset ws next c h = subst IsComplete (some-inj h) default_config-IsComplete

module _ (p : Platform) (F : IsFaithful p) where
  -- A dashboard whose configuration is complete and, if it was ever saved, the saved one.
  record IsSaved (s : DashboardState) : Type 0 where
    pub complete : IsComplete s.config
    pub stored : load_widget_config p s.stored ≡ s.config

  act-IsSaved : (a : Action) (s : DashboardState) → IsSaved s → IsSaved (act p a s)
  unfolding act update_config
  act-IsSaved a s i = go (next_config a s.config) refl
    where
      go :
          (o : Option (List WidgetConfig))
          → next_config a s.config ≡ o
          → IsSaved (elim o [ none ↦ s | some next ↦ update_config p next s ])
      go none e = i
      go (some next) e =
          let c = next_config-IsComplete a s.config next i.complete e in
          record { complete = c; stored = load_widget_config-save p F next c }

  act_all-IsSaved : (as' : List Action) (s : DashboardState) → IsSaved s → IsSaved (act_all p as' s)
  unfolding act_all
  act_all-IsSaved [] s i = i
  act_all-IsSaved (a ∷ as') s i = act_all-IsSaved as' (act p a s) (act-IsSaved a s i)

  -- Where JSON reads back as it was written: after any actions on a page that was opened with every
  -- widget of `WIDGET_DEFS` once, the page has every widget once, and a page that is opened anew
  -- shows the same configuration.
  pub open_dashboard-act_all :
      (actions : List Action) (stored : Option Text)
      → IsComplete (open_dashboard p stored).config
      → let s = act_all p actions (open_dashboard p stored) in
        ((open_dashboard p s.stored).config ≡ s.config) × IsComplete s.config
  unfolding open_dashboard
  open_dashboard-act_all actions stored c =
      let i =
        act_all-IsSaved actions (open_dashboard p stored)
          (record { complete = c; stored = refl }) in
      (i.stored, i.complete)
