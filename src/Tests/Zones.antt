-- ===== src/Tests/Zones.antt =====
-- The zones' pages at concrete inputs.
use mantis_dns.Base.{arith, true, false, none, some, [], ◌∷◌, ◌≡◌, refl}
use mantis_dns.Base.Text.{codes, trim}
use mantis_dns.Forms.EditModal.{open_edit, close, edit_run, start}
use mantis_dns.Zones.{Zone}
use mantis_dns.Zones.Forms.{
  AddForm, NewZone, ZoneForm, initial_add, add_valid, submit_add, update_body, edit_zone_modal,
}
use mantis_dns.Zones.Laws.{IsStored, blank_update, edit_zone_modal-blank}
use mantis_dns.Zones.Records.{DnsRecord, has_priority}

abbrev corp : Zone
corp = record {
  id = "z1";
  tenant_id = some (codes "t1");
  name = codes "corp.local";
  zone_type = codes "forward";
  description = codes "internal";
  enabled = false;
  ttl_default = 60;
  forwarder = some (codes "10.0.0.53");
  record_count = 0;
}

abbrev typed : AddForm
typed = record initial_add {
  tenant_id = codes "t1";
  name = codes "corp.local";
  zone_type = codes "forward";
  forwarder = codes "10.0.0.53";
}

abbrev created : NewZone
created = record {
  tenant_id = codes "t1";
  name = codes "corp.local";
  zone_type = codes "forward";
  description = [];
  enabled = true;
  ttl_default = 300;
  forwarder = some (codes "10.0.0.53");
}

typed_zone : submit_add typed ≡ some created
unfolding submit_add add_valid trim
typed_zone = refl

corp-IsStored : IsStored corp
corp-IsStored = record { forwarder = refl; other = λ e. absurd (ground arith) }

edit_zone_modal-blank_example :
    let e =
      edit_run Zone ZoneForm edit_zone_modal
        (open_edit corp ∷ close ∷ open_edit corp ∷ [])
        (start Zone ZoneForm edit_zone_modal) in
    (e.target ≡ some corp) × (update_body e.form.values ≡ blank_update)
edit_zone_modal-blank_example = edit_zone_modal-blank (open_edit corp ∷ close ∷ []) corp refl

abbrev mail : DnsRecord
mail = record {
  id = "r1";
  name = codes "@";
  record_type = codes "MX";
  record_data = codes "mail.corp.local.";
  ttl = none;
  priority = some 10;
  enabled = true;
}

mail_priority : has_priority (codes "MX") ≡ true
unfolding has_priority
mail_priority = refl
