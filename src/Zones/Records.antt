-- ===== src/Zones/Records.antt =====
-- apps/ui/src/pages/ZoneDetailPage.tsx: the records of a zone.
use mantis_dns.Base.{
  ℕ, String, Bool, true, ◌&&◌, ◌||◌, Option, none, some, [], if◌then◌else◌, length, leb,
}
use mantis_dns.Base.Text.{Text, codes, text_eq, trim}
use mantis_dns.Base.Json.{Json, bool, str, obj, keyed, end}
use mantis_dns.Api.Mutations.{MutationHook, create_record, update_record}
use mantis_dns.Forms.{NumberField, absent, number_json, number_of}

-- `RecordOut`, less its zone and the times.
pub record DnsRecord : Type 0 where
  pub id : String
  pub name : Text
  pub record_type : Text
  pub record_data : Text
  pub ttl : Option ℕ
  pub priority : Option ℕ
  pub enabled : Bool

unfoldable pub has_priority : Text → Bool
has_priority type = text_eq type (codes "MX") || text_eq type (codes "SRV")

-- The values of the form, and the body that is sent.
pub record RecordForm : Type 0 where
  pub name : Text
  pub record_type : Text
  pub record_data : Text
  pub ttl : NumberField
  pub priority : NumberField
  pub enabled : Bool

unfoldable pub record_values : Option DnsRecord → RecordForm
record_values none = record {
  name = codes "@";
  record_type = codes "A";
  record_data = [];
  ttl = absent;
  priority = absent;
  enabled = true;
}
record_values (some r) = record {
  name = r.name;
  record_type = r.record_type;
  record_data = r.record_data;
  ttl = number_of r.ttl;
  priority = number_of r.priority;
  enabled = r.enabled;
}

unfoldable pub record_valid : RecordForm → Bool
unfolding trim
record_valid v = leb 1 (length (trim v.name)) && leb 1 (length (trim v.record_data))

-- `body` of `handleSubmit`.
unfoldable pub record_body : RecordForm → RecordForm
unfolding has_priority
record_body v = record v { priority = if has_priority v.record_type then v.priority else absent }

unfoldable pub body_json : RecordForm → Json
body_json b = obj (
    keyed "name" (str b.name) (
      keyed "record_type" (str b.record_type) (
        keyed "data" (str b.record_data) (
          keyed "ttl" (number_json b.ttl)
            (keyed "priority" (number_json b.priority) (keyed "enabled" (bool b.enabled) end))))))

-- `handleSubmit`, behind `validate`: `record` is what is edited, if it is not a new one.
unfoldable pub submit_record : String → Option DnsRecord → RecordForm → Option MutationHook
unfolding record_valid record_body body_json
submit_record zone_id edited v =
    if record_valid v
    then some (elim edited [
      | none ↦ create_record zone_id (body_json (record_body v))
      | some r ↦ update_record zone_id (r.id, body_json (record_body v))
    ])
    else none
