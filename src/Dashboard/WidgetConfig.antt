-- ===== src/Dashboard/WidgetConfig.antt =====
-- apps/ui/src/pages/dashboard/widgetConfig.ts: the dashboard's configuration and how the browser keeps it.
pub mod Merge
pub mod Storage
use mantis_dns.Base.{
  ℕ, String, Bool, true, false, not, ◌||◌, Option, none, some, List, [], ◌∷◌, ◌++◌, map,
  if◌then◌else◌, ◌==◌, keep_if,
}
use mantis_dns.Base.Text.{Text, codes, text_eq, is_empty}
use mantis_dns.Base.Json.{
  Json, null, bool, num, str, arr, obj, Elems, Members, keyed, end, elems, field, of_list,
}
use mantis_dns.Base.Platform.{Platform}

-- A saved entry may have any id; those of `WIDGET_DEFS` are the valid ones.
pub record WidgetConfig : Type 0 where
  pub id : Text
  pub visible : Bool

-- The ids of `WIDGET_DEFS`.
abbrev pub widget_ids : List Text
widget_ids = map codes (
    "query-volume" ∷ "decision" ∷ "top-domains" ∷ "categories" ∷ "top-clients" ∷ "group-breakdown"
    ∷ "feed-health" ∷ "recent-events" ∷ "latency" ∷ "query-mix" ∷ [])

abbrev pub shown_widget : Text → WidgetConfig
shown_widget i = record { id = i; visible = true }

-- `DEFAULT_CONFIG`.
abbrev pub default_config : List WidgetConfig
default_config = map shown_widget widget_ids

-- `new Set(ids).has(id)`.
abbrev pub has_id : Text → List Text → Bool
has_id i [] = false
has_id i (j ∷ js) = text_eq i j || has_id i js

abbrev pub ids_of : List WidgetConfig → List Text
ids_of [] = []
ids_of (w ∷ ws) = w.id ∷ ids_of ws

-- The part of `loadWidgetConfig` after `JSON.parse`: the saved entries, then the widgets that are new,
-- and of these the valid ones.
unfoldable pub merge_config : List WidgetConfig → List WidgetConfig
merge_config saved =
    keep_if (λ w. has_id w.id widget_ids)
      (saved ++ keep_if (λ w. not (has_id w.id (ids_of saved))) default_config)

-- A value as a condition.
abbrev truthy : Json → Bool
truthy null = false
truthy (bool b) = b
truthy (num n) = not (n == 0)
truthy (str s) = not (is_empty s)
truthy (arr vs) = true
truthy (obj ms) = true

abbrev truthy_field : Option Json → Bool
truthy_field none = false
truthy_field (some v) = truthy v

-- An entry of the saved array: reading `w.id` of `null` throws; an entry with no id that is a string is
-- never valid, and so is left out here.
abbrev with_id : Option Json → Bool → List WidgetConfig
with_id (some (str i)) v = record { id = i; visible = v } ∷ []
with_id _ v = []

abbrev read_entry : Json → Option (List WidgetConfig)
read_entry null = none
read_entry (obj ms) = some (with_id (field "id" ms) (truthy_field (field "visible" ms)))
read_entry _ = some []

abbrev append_to :
    Option (List WidgetConfig) → Option (List WidgetConfig) → Option (List WidgetConfig)
append_to (some ws) (some vs) = some (ws ++ vs)
append_to _ _ = none

unfoldable pub read_entries : List Json → Option (List WidgetConfig)
read_entries [] = some []
read_entries (v ∷ vs) = append_to (read_entry v) (read_entries vs)

-- `saved`, if it is an array and reading it does not throw.
abbrev read_saved : Json → Option (List WidgetConfig)
read_saved (arr vs) = read_entries (elems vs)
read_saved _ = none

abbrev config_json : WidgetConfig → Json
config_json w = obj (keyed "id" (str w.id) (keyed "visible" (bool w.visible) end))

-- `JSON.stringify(config)` as a value.
unfoldable pub configs_json : List WidgetConfig → Json
configs_json ws = arr (of_list (map config_json ws))

module _ (p : Platform) where
  -- `loadWidgetConfig()`, over what `localStorage` holds under the key.
  unfoldable pub load_widget_config : Option Text → List WidgetConfig
  unfolding merge_config read_entries
  load_widget_config none = default_config
  load_widget_config (some raw) = if is_empty raw then default_config else elim (p.parse raw) [
    | none ↦ default_config
    | some saved ↦ elim (read_saved saved) [ none ↦ default_config | some ws ↦ merge_config ws ]
  ]

  -- `saveWidgetConfig(config)`: what `localStorage` holds afterwards.
  unfoldable pub save_widget_config : List WidgetConfig → Option Text
  unfolding configs_json
  save_widget_config ws = some (p.stringify (configs_json ws))
