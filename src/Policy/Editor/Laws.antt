-- ===== src/Policy/Editor/Laws.antt =====
-- When the editor of a policy is dirty, and what becomes of edits during a save.
use mantis_dns.Base.{
  Bool, true, false, not, none, some, List, [], ◌∷◌, all, ◌≡◌, refl, ◌∙◌, sym, arith, ◌↔◌,
}
use mantis_dns.Base.Text.{Text, text_eq, text_eq_sound, text_eq_refl}
use mantis_dns.Base.Platform.{Platform, IsFaithful}
use mantis_dns.Policy.Editor.{
  Contents, Editor, EditorEvent, category_action, override_removed, override_added, failure_changed,
  duplicated, save, save_succeeded, normalize_policy_state, is_dirty, data_changed, answered,
  PolicyOut, load_policy, contents_of, editor_step, editor_run,
}
use mantis_dns.Policy.Editor.Snapshot.{
  Permuted, told_apart, IsTextOrder, normalize_policy_state-Permuted,
}

module _ (p : Platform) (le : Text → Text → Bool) where
  abbrev is_edit : EditorEvent → Bool
  is_edit (category_action c a) = true
  is_edit (override_removed d) = true
  is_edit (override_added o) = true
  is_edit (failure_changed f) = true
  is_edit (duplicated q) = true
  is_edit _ = false

  edit_step-saving :
      (e : EditorEvent) (s : Editor) → is_edit e ≡ true → (editor_step p le e s).saving ≡ s.saving
  unfolding editor_step
  edit_step-saving (category_action c a) s h = refl
  edit_step-saving (override_removed d) s h = refl
  edit_step-saving (override_added o) s h = refl
  edit_step-saving (failure_changed f) s h = refl
  edit_step-saving (duplicated q) s h = refl
  edit_step-saving e s h = ground arith

  edits-saving :
      (es : List EditorEvent) (s : Editor)
      → all is_edit es ≡ true
      → (editor_run p le es s).saving ≡ s.saving
  unfolding editor_run
  edits-saving [] s h = refl
  edits-saving (e ∷ es) s h =
      edits-saving es (editor_step p le e s) (ground arith) ∙ edit_step-saving e s (ground arith)

  is_dirty-answered :
      (s : Editor) (c : Contents)
      → s.saving ≡ c ∷ []
      → is_dirty p le (editor_step p le save_succeeded s)
        ≡ not (text_eq (normalize_policy_state p le s.contents) (normalize_policy_state p le c))
  unfolding is_dirty editor_step
  is_dirty-answered s c e = rw (e) refl

  step_save-saving :
      (s : Editor) → s.saving ≡ [] → (editor_step p le save s).saving ≡ s.contents ∷ []
  unfolding editor_step
  step_save-saving s n = rw (n) refl

  text_eq_iff : (s t : Text) → (not (text_eq s t) ≡ false) ↔ (s ≡ t)
  text_eq_iff s t =
      (λ h. text_eq_sound s t (ground arith), λ h. rw (h) (ground (arith, text_eq_refl t)))

  -- A save that is answered, with no other one pending, after any edits since it was sent leaves
  -- the editor clean exactly when what is edited by then is what was sent, up to the order of its
  -- entries: where JSON reads back as it was written, and `localeCompare` orders the ids and tells
  -- those that are edited apart.
  pub is_dirty-saved :
      IsFaithful p
      → IsTextOrder le
      → (es : List EditorEvent) (s : Editor) → s.saving ≡ []
      → all is_edit es ≡ true
      → told_apart le (editor_run p le es (editor_step p le save s)).contents ≡ true
      → let later = editor_run p le es (editor_step p le save s) in
        (is_dirty p le (editor_step p le save_succeeded later) ≡ false)
        ↔ Permuted later.contents s.contents
  is_dirty-saved F o es s n h t =
      let later = editor_run p le es (editor_step p le save s) in
      let sent = edits-saving es (editor_step p le save s) h ∙ step_save-saving s n in
      let dirty = is_dirty-answered later s.contents sent in
      let (same, permuted) = normalize_policy_state-Permuted p le F o later.contents s.contents t in
      let (equal, clean) =
        text_eq_iff (normalize_policy_state p le later.contents)
          (normalize_policy_state p le s.contents) in
      (λ c. same (equal (sym dirty ∙ c)), λ q. dirty ∙ clean (permuted q))

  edit_step-loaded :
      (e : EditorEvent) (s : Editor) → is_edit e ≡ true → (editor_step p le e s).loaded ≡ s.loaded
  unfolding editor_step
  edit_step-loaded (category_action c a) s h = refl
  edit_step-loaded (override_removed d) s h = refl
  edit_step-loaded (override_added o) s h = refl
  edit_step-loaded (failure_changed f) s h = refl
  edit_step-loaded (duplicated q) s h = refl
  edit_step-loaded e s h = ground arith

  edits-loaded :
      (es : List EditorEvent) (s : Editor)
      → all is_edit es ≡ true
      → (editor_run p le es s).loaded ≡ s.loaded
  unfolding editor_run
  edits-loaded [] s h = refl
  edits-loaded (e ∷ es) s h =
      edits-loaded es (editor_step p le e s) (ground arith) ∙ edit_step-loaded e s (ground arith)

  data_changed-first :
      (q : PolicyOut) (s : Editor)
      → s.loaded ≡ none
      → editor_step p le (data_changed (some q)) s ≡ load_policy p le (some q) s.saving
  unfolding editor_step
  data_changed-first q s e = rw (e) refl

  answered-loaded : (s : Editor) → (editor_step p le save_succeeded s).loaded ≡ s.loaded
  unfolding editor_step
  answered-loaded s = go s.saving
    where
      go : (cs : List Contents) → (answered p le cs s).loaded ≡ s.loaded
      go [] = refl
      go (c ∷ cs) = refl

  step_save-loaded : (s : Editor) → (editor_step p le save s).loaded ≡ s.loaded
  unfolding editor_step
  step_save-loaded s = refl

  load_policy-clean :
      (q : PolicyOut) (saving : List Contents)
      → ((load_policy p le (some q) saving).contents ≡ contents_of (some q))
        × (is_dirty p le (load_policy p le (some q) saving) ≡ false)
  unfolding load_policy is_dirty
  load_policy-clean q saving =
      (refl, rw (text_eq_refl (normalize_policy_state p le (contents_of (some q)))) refl)

  -- In a group that had no policy, the edits that are made after the first save was sent are lost when
  -- the saved policy is fetched: it takes their place, and the editor is clean.
  pub data_changed-saved :
      (q : PolicyOut) (es : List EditorEvent) (s : Editor)
      → s.loaded ≡ none
      → all is_edit es ≡ true
      → let later = editor_run p le es (editor_step p le save s) in
        let fetched =
          editor_step p le (data_changed (some q)) (editor_step p le save_succeeded later) in
        (fetched.contents ≡ contents_of (some q)) × (is_dirty p le fetched ≡ false)
  data_changed-saved q es s n h =
      let later = editor_run p le es (editor_step p le save s) in
      let fresh =
        answered-loaded later
        ∙ edits-loaded es (editor_step p le save s) h
        ∙ step_save-loaded s
        ∙ n in
      rw (data_changed-first q (editor_step p le save_succeeded later) fresh)
        (load_policy-clean q (editor_step p le save_succeeded later).saving)
