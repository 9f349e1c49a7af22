-- ===== src/Dashboard/WidgetConfig/Merge.antt =====
-- What `loadWidgetConfig` makes of a saved configuration.
use mantis_dns.Base.{
  Bool, true, false, not, ◌&&◌, ◌||◌, List, [], ◌∷◌, ◌++◌, ◌≡◌, refl, ◌∙◌, ap, sym, arith, all,
  keep_if, keep_if-append, keep_if-all, append-nil,
}
use mantis_dns.Base.Text.{Text, text_eq_refl, text_eq_sound}
use mantis_dns.Dashboard.WidgetConfig.{
  WidgetConfig, widget_ids, default_config, has_id, ids_of, merge_config,
}

abbrev is_valid : WidgetConfig → Bool
is_valid w = has_id w.id widget_ids

-- The default entries of the widgets that a configuration lacks.
abbrev missing : List WidgetConfig → List WidgetConfig
missing saved = keep_if (λ w. not (has_id w.id (ids_of saved))) default_config

-- A configuration of the valid widgets, all of them, each once.
abbrev pub Distinct : List WidgetConfig → Type 0
Distinct [] = Unit {0}
Distinct (w ∷ ws) = (has_id w.id (ids_of ws) ≡ false) × Distinct ws

pub record IsComplete (ws : List WidgetConfig) : Type 0 where
  pub covers : (i : Text) → has_id i (ids_of ws) ≡ has_id i widget_ids
  pub distinct : Distinct ws

all-keep_if :
    (p q : WidgetConfig → Bool) (ws : List WidgetConfig)
    → all p ws ≡ true
    → all p (keep_if q ws) ≡ true
all-keep_if p q [] h = refl
all-keep_if p q (w ∷ ws) h = ground (arith, all-keep_if p q ws)

-- The saved entries that are valid stay in front, in their order and as visible as they were, and the
-- widgets that no saved entry names follow, visible.
merge_config-append :
    (saved : List WidgetConfig) → merge_config saved ≡ keep_if is_valid saved ++ missing saved
unfolding merge_config
merge_config-append saved =
    keep_if-append is_valid saved (missing saved)
    ∙ ap (◌++◌ (keep_if is_valid saved)) (
        keep_if-all is_valid (missing saved)
          (all-keep_if is_valid (λ w. not (has_id w.id (ids_of saved))) default_config refl))

has_id-append :
    (i : Text) (ws vs : List WidgetConfig)
    → has_id i (ids_of (ws ++ vs)) ≡ (has_id i (ids_of ws) || has_id i (ids_of vs))
has_id-append i [] vs = refl
has_id-append i (w ∷ ws) vs = ground (arith, has_id-append i ws vs)

-- A filter that looks at ids alone.
has_id-keep_if :
    (f : Text → Bool) (i : Text) (ws : List WidgetConfig)
    → has_id i (ids_of (keep_if (λ w. f w.id) ws)) ≡ (has_id i (ids_of ws) && f i)
has_id-keep_if f i [] = refl
has_id-keep_if f i (w ∷ ws) = ground (arith, text_eq_sound i w.id, has_id-keep_if f i ws)

-- The configuration that is loaded names every widget of `WIDGET_DEFS` and no other, whatever was saved.
pub has_id-merge_config :
    (saved : List WidgetConfig) (i : Text)
    → has_id i (ids_of (merge_config saved)) ≡ has_id i widget_ids
has_id-merge_config saved i = rw (merge_config-append saved) (
    ground (
      arith,
      has_id-append i (keep_if is_valid saved) (missing saved),
      has_id-keep_if (λ j. has_id j widget_ids) i saved,
      has_id-keep_if (λ j. not (has_id j (ids_of saved))) i default_config,
    ))

Distinct-keep_if :
    (f : Text → Bool) (ws : List WidgetConfig) → Distinct ws → Distinct (keep_if (λ w. f w.id) ws)
Distinct-keep_if f [] d = tt
Distinct-keep_if f (w ∷ ws) d = ground (arith, Distinct-keep_if f ws d.1, has_id-keep_if f w.id ws)

Distinct-append :
    (ws vs : List WidgetConfig)
    → Distinct ws
    → Distinct vs
    → ((i : Text) → has_id i (ids_of ws) ≡ true → has_id i (ids_of vs) ≡ false)
    → Distinct (ws ++ vs)
Distinct-append [] vs d e apart = e
Distinct-append (w ∷ ws) vs d e apart =
    let rest = Distinct-append ws vs d.1 e (λ i h. apart i (ground arith)) in
    let fresh : has_id w.id (ids_of vs) ≡ false = apart w.id (ground (arith, text_eq_refl w.id)) in
    (rw (has_id-append w.id ws vs, d.0, fresh) refl, rest)

kept-apart :
    (saved : List WidgetConfig) (i : Text)
    → has_id i (ids_of (keep_if is_valid saved)) ≡ true
    → has_id i (ids_of (missing saved)) ≡ false
kept-apart saved i h = ground (
  arith,
  has_id-keep_if (λ j. has_id j widget_ids) i saved,
  has_id-keep_if (λ j. not (has_id j (ids_of saved))) i default_config,
)

default_config-Distinct : Distinct default_config
default_config-Distinct =
    (refl, (refl, (refl, (refl, (refl, (refl, (refl, (refl, (refl, (refl, tt))))))))))

-- Where the saved entries have distinct ids, the loaded configuration is one of all the widgets of
-- `WIDGET_DEFS`, each once.
pub merge_config-IsComplete :
    (saved : List WidgetConfig) → Distinct saved → IsComplete (merge_config saved)
merge_config-IsComplete saved d = record {
  covers = has_id-merge_config saved;
  distinct = rw (merge_config-append saved) (
      Distinct-append (keep_if is_valid saved) (missing saved)
        (Distinct-keep_if (λ j. has_id j widget_ids) saved d)
        (Distinct-keep_if (λ j. not (has_id j (ids_of saved))) default_config
          default_config-Distinct)
        (kept-apart saved));
}

all-valid :
    (ws : List WidgetConfig)
    → ((i : Text) → has_id i (ids_of ws) ≡ true → has_id i widget_ids ≡ true)
    → all is_valid ws ≡ true
all-valid [] h = refl
all-valid (w ∷ ws) h =
    rw (h w.id (ground (arith, text_eq_refl w.id))) (all-valid ws (λ i k. h i (ground arith)))

keep_if_none :
    (f : Text → Bool) (ws : List WidgetConfig)
    → all (λ w. f w.id) ws ≡ true
    → keep_if (λ w. not (f w.id)) ws ≡ []
keep_if_none f [] h = refl
keep_if_none f (w ∷ ws) h = ground (arith, keep_if_none f ws)

all-ids :
    (f g : Text → Bool) (ws : List WidgetConfig)
    → ((i : Text) → f i ≡ g i)
    → all (λ w. f w.id) ws ≡ all (λ w. g w.id) ws
all-ids f g [] h = refl
all-ids f g (w ∷ ws) h = cc (h w.id, all-ids f g ws h)

-- A complete configuration is loaded as it is: the order and the switches are kept.
pub merge_config_complete : (ws : List WidgetConfig) → IsComplete ws → merge_config ws ≡ ws
merge_config_complete ws c =
    let kept = keep_if-all is_valid ws (all-valid ws (λ i h. sym (c.covers i) ∙ h)) in
    let none_missing =
      keep_if_none (λ i. has_id i (ids_of ws)) default_config
        (all-ids _ _ default_config c.covers ∙ refl) in
    merge_config-append ws ∙ rw (kept, none_missing) (append-nil ws)

pub default_config-IsComplete : IsComplete default_config
default_config-IsComplete = record { covers = λ j. refl; distinct = default_config-Distinct }
