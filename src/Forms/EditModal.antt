-- ===== src/Forms/EditModal.antt =====
-- A modal that edits the entity in a page's state, which is `null` while the modal is closed. Its form
-- is in the modal, which is rendered all the time; React mounts it anew when its key has changed.
use mantis_dns.Base.{
  String, str_eq, Bool, true, false, Option, none, some, List, [], ◌∷◌, ◌++◌, any, if◌then◌else◌,
  ◌≡◌, refl, ap, ◌∙◌, arith, eq_refl,
}
use mantis_dns.Forms.{Form, mounted, reset}

module _ (T V : Type 0) where
  -- `useForm({ initialValues })` as a function of the entity, and the `key` of the element, which is
  -- the same always where the page gives none.
  pub record Modal : Type 0 where
    pub initial_values : Option T → V
    pub key : Option T → String

  pub record Editing : Type 0 where
    pub target : Option T
    pub form : Form V

  -- A rendering of the page with another entity in its state.
  abbrev pub render : Modal → Option T → Editing → Editing
  render m t e = record {
    target = t;
    form = if str_eq (m.key e.target) (m.key t) then e.form else mounted (m.initial_values t);
  }

  abbrev pub start : Modal → Editing
  start m = record { target = none; form = mounted (m.initial_values none) }

  pub data Event : Type 0 where
    open_edit : T → Event
    change : V → Event
    -- `handleClose`, on a cancellation or once an update has succeeded.
    close : Event

  abbrev pub edit_step : Modal → Event → Editing → Editing
  edit_step m (open_edit t) e = render m (some t) e
  edit_step m (change v) e = record e { form = record (e.form) { values = v } }
  edit_step m close e = render m none (record e { form = reset e.form })

  abbrev pub edit_run : Modal → List Event → Editing → Editing
  edit_run m [] e = e
  edit_run m (ev ∷ evs) e = edit_run m evs (edit_step m ev e)

  target-close : (m : Modal) (e : Editing) → (edit_step m close e).target ≡ none
  target-close m e = refl

  pub run_append :
      (m : Modal) (evs more : List Event) (e : Editing)
      → edit_run m (evs ++ more) e ≡ edit_run m more (edit_run m evs e)
  run_append m [] more e = refl
  run_append m (ev ∷ evs) more e = run_append m evs more (edit_step m ev e)

  -- With a key for each entity, whatever has been done before, a modal that is closed and opened
  -- shows the values of its entity.
  pub reopened-keyed :
      (m : Modal) (evs : List Event) (t : T)
      → str_eq (m.key none) (m.key (some t)) ≡ false
      → (edit_run m (evs ++ close ∷ open_edit t ∷ []) (start m)).form
        ≡ mounted (m.initial_values (some t))
  reopened-keyed m evs t h =
      ap (λ (e : Editing). e.form) (run_append m evs (close ∷ open_edit t ∷ []) (start m))
      ∙ rw h refl

  abbrev pub is_change : Event → Bool
  is_change (change v) = true
  is_change _ = false

  unkeyed-form :
      (m : Modal)
      → ((a b : Option T) → m.key a ≡ m.key b)
      → (evs : List Event) (e : Editing) → e.form ≡ mounted (m.initial_values none)
      → any is_change evs ≡ false
      → (edit_run m evs e).form ≡ mounted (m.initial_values none)
  unkeyed-form m one [] e h c = h
  unkeyed-form m one (open_edit t ∷ evs) e h c =
      unkeyed-form m one evs (edit_step m (open_edit t) e)
        (rw (one e.target (some t), eq_refl (m.key (some t))) h) c
  unkeyed-form m one (change v ∷ evs) e h c = ground arith
  unkeyed-form m one (close ∷ evs) e h c =
      unkeyed-form m one evs (edit_step m close e)
        (rw (one e.target none, eq_refl (m.key none)) (ap reset h)) c

  -- Without a key, however often entities are opened and closed, the form has the values that it
  -- was given before the first of them, as long as nothing is typed.
  pub opened-unkeyed :
      (m : Modal)
      → ((a b : Option T) → m.key a ≡ m.key b)
      → (evs : List Event) → any is_change evs ≡ false
      → (edit_run m evs (start m)).form ≡ mounted (m.initial_values none)
  opened-unkeyed m one evs c = unkeyed-form m one evs (start m) refl c
