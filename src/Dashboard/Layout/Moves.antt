-- ===== src/Dashboard/Layout/Moves.antt =====
-- Two neighbours of the dashboard's configuration exchanged.
use mantis_dns.Base.{ℕ, zero, suc, ◌<◌, some, List, [], ◌∷◌, ◌≡◌, refl, ◌∙◌, ap, arith, length}
use mantis_dns.Base.Text.{Text, text_eq_sound, text_eq_refl}
use mantis_dns.Dashboard.WidgetConfig.{WidgetConfig, has_id, ids_of}
use mantis_dns.Dashboard.WidgetConfig.Merge.{Distinct}
use mantis_dns.Dashboard.Layout.{find_index, set, exchange}

exchange_later :
    (i j : ℕ) (w : WidgetConfig) (ws : List WidgetConfig)
    → exchange (suc i) (suc j) (w ∷ ws) ≡ w ∷ exchange i j ws
unfolding exchange set
exchange_later i j w ws = ground arith

-- Two neighbours exchanged: one entry moves past the next.
abbrev pub swap_at : ℕ → List WidgetConfig → List WidgetConfig
swap_at i [] = []
swap_at i (w ∷ []) = w ∷ []
swap_at zero (w ∷ v ∷ ws) = v ∷ w ∷ ws
swap_at (suc i) (w ∷ v ∷ ws) = w ∷ swap_at i (v ∷ ws)

pub exchange_down : (i : ℕ) (ws : List WidgetConfig) → exchange i (suc i) ws ≡ swap_at i ws
unfolding exchange set
exchange_down i [] = refl
exchange_down zero (w ∷ []) = refl
exchange_down (suc i) (w ∷ []) = refl
exchange_down zero (w ∷ v ∷ ws) = refl
exchange_down (suc i) (w ∷ v ∷ ws) =
    exchange_later i (suc i) w (v ∷ ws) ∙ ap (◌∷◌ w) (exchange_down i (v ∷ ws))

pub exchange_up : (i : ℕ) (ws : List WidgetConfig) → exchange (suc i) i ws ≡ swap_at i ws
unfolding exchange set
exchange_up i [] = refl
exchange_up zero (w ∷ []) = refl
exchange_up (suc i) (w ∷ []) = refl
exchange_up zero (w ∷ v ∷ ws) = refl
exchange_up (suc i) (w ∷ v ∷ ws) =
    exchange_later (suc i) i w (v ∷ ws) ∙ ap (◌∷◌ w) (exchange_up i (v ∷ ws))

pub has_id-swap_at :
    (i : Text) (k : ℕ) (ws : List WidgetConfig)
    → has_id i (ids_of (swap_at k ws)) ≡ has_id i (ids_of ws)
has_id-swap_at i k [] = refl
has_id-swap_at i k (w ∷ []) = refl
has_id-swap_at i zero (w ∷ v ∷ ws) = ground arith
has_id-swap_at i (suc k) (w ∷ v ∷ ws) = ground (arith, has_id-swap_at i k (v ∷ ws))

pub Distinct-swap_at : (k : ℕ) (ws : List WidgetConfig) → Distinct ws → Distinct (swap_at k ws)
Distinct-swap_at k [] d = d
Distinct-swap_at k (w ∷ []) d = d
Distinct-swap_at zero (w ∷ v ∷ ws) d = ground (arith, text_eq_sound v.id w.id, text_eq_refl v.id)
Distinct-swap_at (suc k) (w ∷ v ∷ ws) d =
    (has_id-swap_at w.id k (v ∷ ws) ∙ d.0, Distinct-swap_at k (v ∷ ws) d.1)

pub length-swap_at : (k : ℕ) (ws : List WidgetConfig) → length (swap_at k ws) ≡ length ws
length-swap_at k [] = refl
length-swap_at k (w ∷ []) = refl
length-swap_at zero (w ∷ v ∷ ws) = refl
length-swap_at (suc k) (w ∷ v ∷ ws) = ap suc (length-swap_at k (v ∷ ws))

swap_at_later :
    (k : ℕ) (w : WidgetConfig) (ws : List WidgetConfig)
    → swap_at (suc k) (w ∷ ws) ≡ w ∷ swap_at k ws
swap_at_later k w [] = refl
swap_at_later k w (v ∷ ws) = refl

pub swap_at-swap_at : (k : ℕ) (ws : List WidgetConfig) → swap_at k (swap_at k ws) ≡ ws
swap_at-swap_at k [] = refl
swap_at-swap_at k (w ∷ []) = refl
swap_at-swap_at zero (w ∷ v ∷ ws) = refl
swap_at-swap_at (suc k) (w ∷ v ∷ ws) =
    swap_at_later k w (swap_at k (v ∷ ws)) ∙ ap (◌∷◌ w) (swap_at-swap_at k (v ∷ ws))

pub find_index_down :
    (i : Text) (k : ℕ) (ws : List WidgetConfig)
    → Distinct ws
    → find_index i ws ≡ some k
    → suc k < length ws
    → find_index i (swap_at k ws) ≡ some (suc k)
unfolding find_index
find_index_down i k [] d e l = ground arith
find_index_down i k (w ∷ []) d e l = ground arith
find_index_down i zero (w ∷ v ∷ ws) d e l =
    ground (arith, text_eq_sound w.id i, text_eq_sound v.id i, text_eq_refl i)
find_index_down i (suc k) (w ∷ v ∷ ws) d e l = ground (arith, find_index_down i k (v ∷ ws))

pub find_index_up :
    (i : Text) (k : ℕ) (ws : List WidgetConfig)
    → find_index i ws ≡ some (suc k)
    → find_index i (swap_at k ws) ≡ some k
unfolding find_index
find_index_up i k [] e = ground arith
find_index_up i k (w ∷ []) e = ground arith
find_index_up i zero (w ∷ v ∷ ws) e = ground arith
find_index_up i (suc k) (w ∷ v ∷ ws) e = ground (arith, find_index_up i k (v ∷ ws))
