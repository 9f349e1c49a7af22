-- ===== src/Zones/Forms.antt =====
-- apps/ui/src/pages/ZonesPage.tsx and ZoneDetailPage.tsx: the forms of a zone.
use mantis_dns.Base.{ℕ, Bool, true, not, ◌&&◌, Option, none, some, [], if◌then◌else◌, length, leb}
use mantis_dns.Base.Text.{Text, codes, is_empty, text_eq, trim}
use mantis_dns.Base.Json.{bool, num, str, obj, keyed, end}
use mantis_dns.Api.Mutations.{MutationHook, create_zone, update_zone}
use mantis_dns.Forms.EditModal.{Modal}
use mantis_dns.Forms.Optional.{or_blank, or_null, text_json}
use mantis_dns.Zones.{Zone}

pub record AddForm : Type 0 where
  pub tenant_id : Text
  pub name : Text
  pub zone_type : Text
  pub description : Text
  pub enabled : Bool
  pub ttl_default : ℕ
  pub forwarder : Text

abbrev pub initial_add : AddForm
initial_add = record {
  tenant_id = [];
  name = [];
  zone_type = codes "local";
  description = [];
  enabled = true;
  ttl_default = 300;
  forwarder = [];
}

abbrev pub is_forward : Text → Bool
is_forward t = text_eq t (codes "forward")

unfoldable pub add_valid : AddForm → Bool
unfolding trim
add_valid v =
    not (is_empty v.tenant_id)
    && leb 1 (length (trim v.name))
    && not (is_empty v.zone_type)
    && not (is_forward v.zone_type && is_empty (trim v.forwarder))

-- What a creation sends.
pub record NewZone : Type 0 where
  pub tenant_id : Text
  pub name : Text
  pub zone_type : Text
  pub description : Text
  pub enabled : Bool
  pub ttl_default : ℕ
  pub forwarder : Option Text

-- `form.onSubmit`: `{ ...values, forwarder: isForward ? values.forwarder : null }`.
unfoldable pub submit_add : AddForm → Option NewZone
unfolding add_valid
submit_add v =
    if add_valid v
    then some (record {
      tenant_id = v.tenant_id;
      name = v.name;
      zone_type = v.zone_type;
      description = v.description;
      enabled = v.enabled;
      ttl_default = v.ttl_default;
      forwarder = if is_forward v.zone_type then some v.forwarder else none;
    })
    else none

unfoldable add_request : NewZone → MutationHook
add_request z = create_zone (
    obj (
      keyed "tenant_id" (str z.tenant_id) (
        keyed "name" (str z.name) (
          keyed "zone_type" (str z.zone_type) (
            keyed "description" (str z.description) (
              keyed "enabled" (bool z.enabled) (
                keyed "ttl_default" (num z.ttl_default)
                  (keyed "forwarder" (text_json z.forwarder) end))))))))

-- The values of the two forms that edit a zone, and what they send.
pub record ZoneForm : Type 0 where
  pub zone_type : Text
  pub description : Text
  pub enabled : Bool
  pub ttl_default : ℕ
  pub forwarder : Text

pub record ZoneUpdate : Type 0 where
  pub zone_type : Text
  pub description : Text
  pub enabled : Bool
  pub ttl_default : ℕ
  pub forwarder : Option Text

-- `initialValues` of `EditZoneModal`.
unfoldable pub edit_values : Option Zone → ZoneForm
edit_values none = record {
  zone_type = codes "local";
  description = [];
  enabled = true;
  ttl_default = 300;
  forwarder = [];
}
edit_values (some z) = record {
  zone_type = z.zone_type;
  description = z.description;
  enabled = z.enabled;
  ttl_default = z.ttl_default;
  forwarder = or_blank z.forwarder;
}

-- `initialValues` of `SettingsTab`.
unfoldable pub settings_values : Zone → ZoneForm
settings_values z = record {
  zone_type = z.zone_type;
  description = z.description;
  enabled = z.enabled;
  ttl_default = z.ttl_default;
  forwarder = or_blank z.forwarder;
}

-- `{ ...values, forwarder: isForward ? values.forwarder || null : null }`.
unfoldable pub update_body : ZoneForm → ZoneUpdate
update_body v = record {
  zone_type = v.zone_type;
  description = v.description;
  enabled = v.enabled;
  ttl_default = v.ttl_default;
  forwarder = if is_forward v.zone_type then or_null v.forwarder else none;
}

unfoldable update_request : Zone → ZoneUpdate → MutationHook
update_request z b = update_zone (
  z.id,
  obj (
      keyed "zone_type" (str b.zone_type) (
        keyed "description" (str b.description) (
          keyed "enabled" (bool b.enabled) (
            keyed "ttl_default" (num b.ttl_default)
              (keyed "forwarder" (text_json b.forwarder) end))))),
)

-- `<EditZoneModal zone={editZone} …/>`, which has no key.
unfoldable pub edit_zone_modal : Modal Zone ZoneForm
unfolding edit_values
edit_zone_modal = record { initial_values = edit_values; key = λ t. "" }
