-- ===== src/Upstream/Pools.antt =====
-- apps/ui/src/pages/upstream/PoolsTab.tsx.
use mantis_dns.Base.{ℕ, String, Bool, not, Option, none, some, [], ◌++◌}
use mantis_dns.Base.Text.{Text, codes, is_empty, trim}
use mantis_dns.Base.Json.{Json, num, str, obj, keyed, end}
use mantis_dns.Api.Mutations.{create_upstream_pool, update_upstream_pool, delete_upstream_pool}
use mantis_dns.Api.Errors.{format_error}
use mantis_dns.Forms.CrudTab.{Entity}

-- The part of a pool that the form edits.
pub record PoolForm : Type 0 where
  pub name : Text
  pub strategy : Text
  pub health_check_interval_s : ℕ
  pub health_check_timeout_ms : ℕ
  pub health_check_query : Text
  pub health_check_type : Text
  pub unhealthy_threshold : ℕ
  pub healthy_threshold : ℕ
  pub min_healthy_members : ℕ

pub record Pool : Type 0 where
  pub id : String
  pub settings : PoolForm

unfoldable pool_values : Option Pool → PoolForm
pool_values none = record {
  name = [];
  strategy = codes "round_robin";
  health_check_interval_s = 30;
  health_check_timeout_ms = 2000;
  health_check_query = codes ".";
  health_check_type = codes "soa";
  unhealthy_threshold = 3;
  healthy_threshold = 2;
  min_healthy_members = 1;
}
pool_values (some p) = p.settings

unfoldable pool_valid : PoolForm → Bool
unfolding trim
pool_valid v = not (is_empty (trim v.name))

unfoldable pool_json : PoolForm → Json
pool_json v = obj (
    keyed "name" (str v.name) (
      keyed "strategy" (str v.strategy) (
        keyed "health_check_interval_s" (num v.health_check_interval_s) (
          keyed "health_check_timeout_ms" (num v.health_check_timeout_ms) (
            keyed "health_check_query" (str v.health_check_query) (
              keyed "health_check_type" (str v.health_check_type) (
                keyed "unhealthy_threshold" (num v.unhealthy_threshold) (
                  keyed "healthy_threshold" (num v.healthy_threshold)
                    (keyed "min_healthy_members" (num v.min_healthy_members) end)))))))))

unfoldable pub pools : (Option Json → Text) → Entity Pool PoolForm
unfolding pool_json
pools name_of = record {
  create = λ v. create_upstream_pool (pool_json v);
  update = λ p v. update_upstream_pool (p.id, pool_json v);
  created_message = λ answer. codes "Pool \"" ++ name_of answer ++ codes "\" created";
  error_message = format_error;
  updated_message = λ _. codes "Pool updated";
  remove = λ p. delete_upstream_pool p.id;
  removed_message = λ p. some (codes "Pool \"" ++ p.settings.name ++ codes "\" deleted");
}
