-- ===== src/Zones/Laws.antt =====
-- What the forms of the zones and of their records send.
use mantis_dns.Base.{
  Bool, true, false, not, any, Option, none, some, List, [], ◌∷◌, ◌++◌, ◌≡◌, refl, ap, ◌∙◌,
  any-append, Bool-cases, inl, inr, arith,
}
use mantis_dns.Base.Text.{Text, codes, is_empty, trim}
use mantis_dns.Forms.{Form}
use mantis_dns.Forms.EditModal.{
  Editing, run_append, Event, open_edit, is_change, edit_run, start, opened-unkeyed,
}
use mantis_dns.Forms.Optional.{is_stored, or_null-or_blank}
use mantis_dns.Zones.{Zone}
use mantis_dns.Zones.Forms.{
  AddForm, NewZone, ZoneForm, ZoneUpdate, is_forward, add_valid, submit_add, edit_values,
  settings_values, update_body, edit_zone_modal,
}
use mantis_dns.Zones.Records.{DnsRecord, has_priority, record_values, record_body}

abbrev pub is_none : Option Text → Bool
is_none none = true
is_none (some t) = false

abbrev pub is_filled : Option Text → Bool
is_filled none = false
is_filled (some t) = not (is_empty (trim t))

-- The zone that the form creates has a forwarder exactly when it is a forward zone, and then one that
-- is not blank.
pub submit_add-is_forward :
    (v : AddForm) (z : NewZone)
    → submit_add v ≡ some z
    → (is_none z.forwarder ≡ not (is_forward z.zone_type))
      × (is_filled z.forwarder ≡ is_forward z.zone_type)
unfolding submit_add add_valid
submit_add-is_forward v z h = ground arith

-- A zone as it is stored: no forwarder unless it is a forward zone, and none that is empty.
pub record IsStored (z : Zone) : Type 0 where
  pub forwarder : is_stored z.forwarder ≡ true
  pub other : is_forward z.zone_type ≡ false → z.forwarder ≡ none

-- What an update that changes nothing sends.
abbrev pub unchanged : Zone → ZoneUpdate
unchanged z = record {
  zone_type = z.zone_type;
  description = z.description;
  enabled = z.enabled;
  ttl_default = z.ttl_default;
  forwarder = z.forwarder;
}

-- The settings of a zone, as it is stored, are sent as they are when they are saved without a change.
pub update_body-settings_values :
    (z : Zone) → IsStored z → update_body (settings_values z) ≡ unchanged z
unfolding update_body settings_values
update_body-settings_values z i = elim (Bool-cases (is_forward z.zone_type)) [
  | inl e ↦ rw (e, or_null-or_blank z.forwarder i.forwarder) refl
  | inr e ↦ rw (e, i.other e) refl
]

-- What the form of the zones' table sends if nothing is typed into it.
abbrev pub blank_update : ZoneUpdate
blank_update = record {
  zone_type = codes "local";
  description = [];
  enabled = true;
  ttl_default = 300;
  forwarder = none;
}

-- In the table of the zones, whatever zones have been opened before, the zone that is opened for
-- editing and saved without typing anything is made an enabled local zone without a description or
-- a forwarder and with a TTL of 300, whatever it was.
pub edit_zone_modal-blank :
    (evs : List (Event Zone ZoneForm)) (z : Zone)
    → any (is_change Zone ZoneForm) evs ≡ false
    → let e =
        edit_run Zone ZoneForm edit_zone_modal
          (evs ++ open_edit z ∷ [])
          (start Zone ZoneForm edit_zone_modal) in
      (e.target ≡ some z) × (update_body e.form.values ≡ blank_update)
unfolding update_body edit_zone_modal edit_values
edit_zone_modal-blank evs z h = (
  ap (λ (e : Editing Zone ZoneForm). e.target)
      (run_append Zone ZoneForm edit_zone_modal evs (open_edit z ∷ [])
        (start Zone ZoneForm edit_zone_modal)),
  ap (λ (f : Form ZoneForm). update_body f.values)
      (opened-unkeyed Zone ZoneForm edit_zone_modal (λ a b. refl) (evs ++ open_edit z ∷ [])
        (any-append (is_change Zone ZoneForm) evs (open_edit z ∷ []) ∙ ground arith)),
)

abbrev pub KeepsPriority : DnsRecord → Type 0
KeepsPriority r = has_priority r.record_type ≡ false → r.priority ≡ none

-- A record that has a priority only if its type takes one is sent as it is when it is saved without
-- a change.
pub record_body-record_values :
    (r : DnsRecord)
    → KeepsPriority r
    → record_body (record_values (some r)) ≡ record_values (some r)
unfolding record_body record_values
record_body-record_values r h = elim (Bool-cases (has_priority r.record_type)) [
  | inl e ↦ rw e refl
  | inr e ↦ rw (e, h e) refl
]
