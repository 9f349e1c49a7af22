-- ===== src/Tests/Upstream.antt =====
-- The upstream tabs at concrete inputs.
use mantis_dns.Base.{false, true, not, ◌&&◌, none, some, [], ◌∷◌, map, ◌≡◌, refl}
use mantis_dns.Base.Text.{codes, trim}
use mantis_dns.Api.Outcome.{is_value}
use mantis_dns.Api.Cache.{served}
use mantis_dns.Api.Cache.Memory.{memory_client, memory_client-IsLawful}
use mantis_dns.Api.Queries.{query_spec, upstream_resolvers}
use mantis_dns.Api.Coherence.{addresses}
use mantis_dns.Forms.CrudTab.{Tab, save, save_mutation}
use mantis_dns.Upstream.Resolvers.{Resolver, ResolverForm, dot, resolver_valid, resolvers}
use mantis_dns.Forms.CrudTab.Laws.{all_done, save-closed}
use mantis_dns.Upstream.TenantPolicy.{
  Policy, open_tab, choose, answered, change, policy_run, policy_run-chosen,
}
use mantis_dns.Tests.Fixtures.{platform, page, refusing}

abbrev form : ResolverForm
form = record {
  name = codes "quad9";
  protocol = dot;
  address = codes "9.9.9.9";
  port = 853;
  tls_hostname = [];
  dnssec_validation = codes "strict";
  timeout_ms = 5000;
  max_retries = 2;
  tags = [];
  enabled = true;
}

abbrev tab : Tab Resolver
tab = record { edit_target = none; modal_open = true; notices = [] }

save-closed_example :
    let (x, after, last) =
      save platform refusing page memory_client (resolvers (λ a. codes "quad9")) form tab [] in
    (after.modal_open ≡ (true && not (is_value x.outcome)))
    × (after.edit_target ≡ none)
    × (all_done after.notices ≡ (true && is_value x.outcome))
    × ((served memory_client last (query_spec upstream_resolvers).query_key
          && is_value x.outcome
          && addresses
              (save_mutation (resolvers (λ a. codes "quad9")) none form)
              upstream_resolvers)
        ≡ false)
save-closed_example =
    save-closed platform refusing page memory_client memory_client-IsLawful
      (resolvers (λ a. codes "quad9")) form tab [] upstream_resolvers

form_valid : resolver_valid form ≡ true
unfolding resolver_valid trim
form_valid = refl

abbrev strict : Policy
strict = record {
  require_encrypted = true;
  dnssec_validation = codes "strict";
  min_ttl_s = 10;
  max_ttl_s = 600;
  negative_ttl_s = 30;
}

policy_run-chosen_example :
    ((policy_run (choose (some "t1") ∷ []) open_tab).values ≡ open_tab.values)
    × ((policy_run
          (choose (some "t1") ∷ answered strict ∷ map answered (strict ∷ []))
          open_tab).values
        ≡ strict)
    × ((policy_run
          (choose (some "t1")
            ∷ answered strict
            ∷ change open_tab.values
            ∷ map answered (strict ∷ []))
          open_tab).values
        ≡ open_tab.values)
policy_run-chosen_example =
    policy_run-chosen "t1" strict (strict ∷ []) (strict ∷ []) open_tab.values open_tab
