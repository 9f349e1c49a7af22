-- ===== src/Dashboard/WidgetConfig/Storage.antt =====
-- `saveWidgetConfig` and then `loadWidgetConfig`.
use mantis_dns.Base.{false, some, List, [], ◌∷◌, map, ◌≡◌, refl, arith}
use mantis_dns.Base.Text.{Text, is_empty}
use mantis_dns.Base.Json.{Json, elems, of_list}
use mantis_dns.Base.Platform.{Platform, IsFaithful}
use mantis_dns.Dashboard.WidgetConfig.{
  WidgetConfig, config_json, configs_json, read_entries, load_widget_config, save_widget_config,
}
use mantis_dns.Dashboard.WidgetConfig.Merge.{IsComplete, merge_config_complete}

read_entries-config_json :
    (ws : List WidgetConfig) → read_entries (elems (of_list (map config_json ws))) ≡ some ws
unfolding read_entries
read_entries-config_json [] = refl
read_entries-config_json (w ∷ ws) = rw (read_entries-config_json ws)

not-empty : (p : Platform) → IsFaithful p → (j : Json) → is_empty (p.stringify j) ≡ false
not-empty p F j = go (p.stringify j) (F.parse-stringify j)
  where
    go : (t : Text) → p.parse t ≡ some j → is_empty t ≡ false
    go [] e = absurd (cc (F.parse_empty))
    go (c ∷ t) e = refl

-- Where JSON reads back as it was written, a configuration of all the widgets, each once, that was
-- saved is loaded as it was.
pub load_widget_config-save :
    (p : Platform)
    → IsFaithful p
    → (ws : List WidgetConfig) → IsComplete ws
    → load_widget_config p (save_widget_config p ws) ≡ ws
unfolding load_widget_config save_widget_config configs_json
load_widget_config-save p F ws c = ground (
  arith,
  not-empty p F (configs_json ws),
  F.parse-stringify (configs_json ws),
  read_entries-config_json ws,
  merge_config_complete ws c,
)
