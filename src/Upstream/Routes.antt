-- ===== src/Upstream/Routes.antt =====
-- apps/ui/src/pages/upstream/RoutesTab.tsx.
use mantis_dns.Base.{ℕ, String, Bool, true, not, ◌&&◌, Option, none, some, [], if◌then◌else◌}
use mantis_dns.Base.Text.{Text, codes, is_empty, text_eq, trim}
use mantis_dns.Base.Json.{Json, bool, num, str, obj, keyed, end}
use mantis_dns.Api.Mutations.{create_upstream_route, update_upstream_route, delete_upstream_route}
use mantis_dns.Forms.Optional.{or_blank, text_json}
use mantis_dns.Api.Errors.{format_error}
use mantis_dns.Forms.CrudTab.{Entity}

-- The part of a route that the form edits.
pub record RouteBody : Type 0 where
  pub name : Text
  pub match_type : Text
  pub match_value : Option Text
  pub pool_id : Text
  pub priority : ℕ
  pub enabled : Bool

pub record Route : Type 0 where
  pub id : String
  pub settings : RouteBody

pub record RouteForm : Type 0 where
  pub name : Text
  pub match_type : Text
  pub match_value : Text
  pub pool_id : Text
  pub priority : ℕ
  pub enabled : Bool

unfoldable pub route_values : Option Route → RouteForm
route_values none = record {
  name = [];
  match_type = codes "default";
  match_value = [];
  pool_id = [];
  priority = 100;
  enabled = true;
}
route_values (some r) = record {
  name = r.settings.name;
  match_type = r.settings.match_type;
  match_value = or_blank r.settings.match_value;
  pool_id = r.settings.pool_id;
  priority = r.settings.priority;
  enabled = r.settings.enabled;
}

unfoldable pub route_valid : RouteForm → Bool
unfolding trim
route_valid v = not (is_empty (trim v.name)) && not (is_empty v.pool_id)

abbrev pub needs_value : Text → Bool
needs_value match_type = not (text_eq match_type (codes "default"))

-- `{ ...v, match_value: needsValue ? v.match_value : null }`.
unfoldable pub route_body : RouteForm → RouteBody
route_body v = record {
  name = v.name;
  match_type = v.match_type;
  match_value = if needs_value v.match_type then some v.match_value else none;
  pool_id = v.pool_id;
  priority = v.priority;
  enabled = v.enabled;
}

unfoldable route_json : RouteBody → Json
route_json b = obj (
    keyed "name" (str b.name) (
      keyed "match_type" (str b.match_type) (
        keyed "match_value" (text_json b.match_value) (
          keyed "pool_id" (str b.pool_id)
            (keyed "priority" (num b.priority) (keyed "enabled" (bool b.enabled) end))))))

-- The routes of a tenant.
unfoldable pub routes : Option String → Entity Route RouteForm
unfolding route_body route_json
routes tenant_id = record {
  create = λ v. create_upstream_route tenant_id (route_json (route_body v));
  update = λ r v. update_upstream_route tenant_id (r.id, route_json (route_body v));
  created_message = λ answer. codes "Route created";
  error_message = format_error;
  updated_message = λ _. codes "Route updated";
  remove = λ r. delete_upstream_route tenant_id r.id;
  removed_message = λ r. none;
}
