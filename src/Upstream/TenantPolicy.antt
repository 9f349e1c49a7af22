-- ===== src/Upstream/TenantPolicy.antt =====
-- apps/ui/src/pages/upstream/PolicyTab.tsx: the form of a tenant's policy.
use mantis_dns.Base.{
  ℕ, String, str_eq, Bool, false, Option, none, some, List, [], ◌∷◌, map, if◌then◌else◌, ◌≡◌, refl,
  eq_refl, ap, ◌∙◌,
}
use mantis_dns.Base.Text.{Text, codes}
use mantis_dns.Base.Json.{bool, num, str, obj, keyed, end}
use mantis_dns.Api.Mutations.{MutationHook, upsert_upstream_tenant_policy}

-- `UpstreamTenantPolicy`, less its tenant.
pub record Policy : Type 0 where
  pub require_encrypted : Bool
  pub dnssec_validation : Text
  pub min_ttl_s : ℕ
  pub max_ttl_s : ℕ
  pub negative_ttl_s : ℕ

pub record Tab : Type 0 where
  pub tenant_id : Option String
  pub synced : Option String
  pub values : Policy

abbrev pub open_tab : Tab
open_tab = record {
  tenant_id = none;
  synced = none;
  values = record {
    require_encrypted = false;
    dnssec_validation = codes "opportunistic";
    min_ttl_s = 0;
    max_ttl_s = 86400;
    negative_ttl_s = 300;
  };
}

abbrev is_synced : Option String → String → Bool
is_synced none t = false
is_synced (some s) t = str_eq s t

abbrev synced_to : String → Policy → Tab → Tab
synced_to t policy tab =
    if is_synced tab.synced t then tab else record tab { synced = some t; values = policy }

pub data Event : Type 0 where
  -- The selection of a tenant, or of none.
  choose : Option String → Event
  -- A rendering in which the query of the tenant has a policy.
  answered : Policy → Event
  change : Policy → Event

unfoldable pub policy_step : Event → Tab → Tab
policy_step (choose v) tab = record tab { tenant_id = v; synced = none }
policy_step (answered policy) tab = elim tab.tenant_id [
  | none ↦ tab
  | some t ↦ synced_to t policy tab
]
policy_step (change values) tab = record tab { values = values }

unfoldable pub policy_run : List Event → Tab → Tab
unfolding policy_step
policy_run [] tab = tab
policy_run (e ∷ es) tab = policy_run es (policy_step e tab)

-- The submission, on a tab with a tenant.
unfoldable pub submit_policy : Tab → MutationHook
submit_policy tab = upsert_upstream_tenant_policy tab.tenant_id (
    obj (
      keyed "require_encrypted" (bool tab.values.require_encrypted) (
        keyed "dnssec_validation" (str tab.values.dnssec_validation) (
          keyed "min_ttl_s" (num tab.values.min_ttl_s) (
            keyed "max_ttl_s" (num tab.values.max_ttl_s)
              (keyed "negative_ttl_s" (num tab.values.negative_ttl_s) end))))))

abbrev shown : String → Policy → Tab
shown t values = record { tenant_id = some t; synced = some t; values = values }

kept :
    (t : String) (policy values : Policy)
    → policy_step (answered policy) (shown t values) ≡ shown t values
unfolding policy_step
kept t policy values = rw (eq_refl t) refl

refetched :
    (t : String) (later : List Policy) (values : Policy)
    → policy_run (map answered later) (shown t values) ≡ shown t values
unfolding policy_run
refetched t [] values = refl
refetched t (policy ∷ later) values =
    ap (policy_run (map answered later)) (kept t policy values) ∙ refetched t later values

-- Once a tenant's policy has arrived, the form has what the user has made of it, whatever arrives
-- later: the changes since are kept, and nothing of the tenant that was shown before. Until then it
-- has the values of the tenant that was shown before.
pub policy_run-chosen :
    (t : String) (first : Policy) (later more : List Policy) (edited : Policy) (tab : Tab)
    → ((policy_run (choose (some t) ∷ []) tab).values ≡ tab.values)
      × ((policy_run (choose (some t) ∷ answered first ∷ map answered later) tab).values ≡ first)
      × ((policy_run
            (choose (some t) ∷ answered first ∷ change edited ∷ map answered more)
            tab).values
          ≡ edited)
unfolding policy_run policy_step
policy_run-chosen t first later more edited tab = (
  refl,
  ap (λ (s : Tab). s.values) (refetched t later first),
  ap (λ (s : Tab). s.values) (refetched t more edited),
)
