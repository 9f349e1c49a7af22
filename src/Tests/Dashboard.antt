-- ===== src/Tests/Dashboard.antt =====
-- The dashboard at concrete inputs.
use mantis_dns.Base.{length, true, leb, if◌then◌else◌}
use mantis_dns.Analytics.{TopDomain, top_domains}
use mantis_dns.Analytics.Laws.{IsTop, descending, top_domains-IsTop}
use mantis_dns.Logs.QueryLog.{log_query, open_log}
use mantis_dns.Dashboard.Widgets.{Entries, query_log_href}
use mantis_dns.Dashboard.Widgets.Laws.{asked, log_query-query_log_href}
use mantis_dns.Base.{none, some, List, [], ◌∷◌, ◌≡◌, refl}
use mantis_dns.Base.Text.{codes}
use mantis_dns.Dashboard.WidgetConfig.{WidgetConfig, shown_widget, load_widget_config}
use mantis_dns.Dashboard.WidgetConfig.Merge.{IsComplete, default_config-IsComplete}
use mantis_dns.Dashboard.Layout.{up, down, move_widget, toggle, move, open_dashboard, act_all}
use mantis_dns.Dashboard.Layout.Laws.{open_dashboard-act_all}
use mantis_dns.Tests.Fixtures.{platform, platform-IsFaithful}

abbrev saved_widgets : List WidgetConfig
saved_widgets = shown_widget (codes "latency") ∷ shown_widget (codes "retired") ∷ []

abbrev moved : List WidgetConfig
moved = shown_widget (codes "retired") ∷ shown_widget (codes "latency") ∷ []

saved_widgets-moved : move_widget (codes "latency") down saved_widgets ≡ some moved
unfolding move_widget
saved_widgets-moved = refl

none-IsComplete : IsComplete (open_dashboard platform none).config
unfolding open_dashboard load_widget_config
none-IsComplete = default_config-IsComplete

open_dashboard-act_all_example :
    let s =
      act_all platform
        (toggle (codes "latency") ∷ move (codes "decision") up ∷ [])
        (open_dashboard platform none) in
    ((open_dashboard platform s.stored).config ≡ s.config) × IsComplete s.config
open_dashboard-act_all_example =
    open_dashboard-act_all platform platform-IsFaithful
      (toggle (codes "latency") ∷ move (codes "decision") up ∷ []) none none-IsComplete

abbrev blocked_domain : Entries
blocked_domain = ("qname", some (codes "ads.example")) ∷ ("decision", some (codes "block")) ∷ []

log_query-query_log_href_example :
    log_query (open_log (query_log_href 168 blocked_domain).1) ≡ record {
      offset = some 0;
      decision = asked "decision" blocked_domain;
      qname = asked "qname" blocked_domain;
      client_ip = asked "client_ip" blocked_domain;
      qtype = asked "qtype" blocked_domain;
      matched_category = asked "category" blocked_domain;
      hours = some (some 168);
    }
log_query-query_log_href_example =
    log_query-query_log_href 168 blocked_domain (refl, (refl, tt)) refl refl

abbrev two_domains : List TopDomain
two_domains =
    record { qname = codes "a.example"; decision = codes "block"; count = 3 }
    ∷ record { qname = codes "b.example"; decision = codes "block"; count = 7 }
    ∷ []

top_domains-IsTop_example :
    IsTop (top_domains two_domains) two_domains
    × (length (top_domains two_domains)
        ≡ (if leb 10 (length two_domains) then 10 else length two_domains))
    × (descending (top_domains two_domains) ≡ true)
top_domains-IsTop_example = top_domains-IsTop two_domains
