-- ===== src/Accounts/Clients.antt =====
-- apps/ui/src/pages/ClientsPage.tsx: the form of a client.
use mantis_dns.Base.{String, Option, none, some, List, map}
use mantis_dns.Base.Text.{Text, codes, trim}
use mantis_dns.Base.Json.{str, arr, obj, keyed, end, of_list}
use mantis_dns.Api.Outcome.{Outcome, value, thrown}
use mantis_dns.Api.Mutations.{MutationHook, register_client}
use mantis_dns.Forms.Optional.{or_blank, or_null, text_json}

-- `ClientOut`, less what the form does not read.
pub record Client : Type 0 where
  pub ip : String
  pub hostname : Option Text
  pub owner : Option Text
  pub device_type : Option Text
  pub tags : List Text

-- The values. The select of the device type is clearable: it puts `null` when it is cleared.
pub record ClientForm : Type 0 where
  pub hostname : Text
  pub owner : Text
  pub device_type : Option Text
  pub tags : List Text

unfoldable pub client_values : Client → ClientForm
client_values c = record {
  hostname = or_blank c.hostname;
  owner = or_blank c.owner;
  device_type = some (or_blank c.device_type);
  tags = c.tags;
}

-- What a registration sends.
pub record Registration : Type 0 where
  pub hostname : Option Text
  pub owner : Option Text
  pub device_type : Option Text
  pub tags : List Text

-- The body; `trim` of `null` throws.
unfoldable pub registration : ClientForm → Outcome Registration
unfolding trim
registration v = elim v.device_type [
  | none ↦ thrown (codes "Cannot read properties of null (reading 'trim')")
  | some device ↦ value (record {
    hostname = or_null (trim v.hostname);
    owner = or_null (trim v.owner);
    device_type = or_null (trim device);
    tags = v.tags;
  })
]

unfoldable register_request : Option String → Client → Registration → MutationHook
register_request tenant_id c r = register_client tenant_id (
  c.ip,
  obj (
      keyed "hostname" (text_json r.hostname) (
        keyed "owner" (text_json r.owner) (
          keyed "device_type" (text_json r.device_type)
            (keyed "tags" (arr (of_list (map str r.tags))) end)))),
)
