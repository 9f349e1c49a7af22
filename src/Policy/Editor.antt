-- ===== src/Policy/Editor.antt =====
-- apps/ui/src/pages/PolicyPage.tsx: the editor of a group's policy. Its state is what `useState` and
-- `baselineRef` hold, on a page that has a group; the saves that were sent and are not answered yet are part of it.
pub mod Snapshot
pub mod Edits
pub mod Laws
use mantis_dns.Base.{
  ℕ, Bool, true, false, not, ◌&&◌, ◌||◌, Option, none, some, List, [], ◌∷◌, ◌++◌, map, keep_if,
  if◌then◌else◌,
}
use mantis_dns.Base.Sort.{sort_by}
use mantis_dns.Base.Text.{Text, codes, text_eq}
use mantis_dns.Base.Json.{Json, str, arr, obj, keyed, end, of_list}
use mantis_dns.Base.Platform.{Platform}
use mantis_dns.Policy.Domain.{Kind, allow, deny, Override}

pub record CategoryToggle : Type 0 where
  pub category_id : Text
  pub action : Text

pub data LoadFailure : Type 0 where
  fail_open fail_closed : LoadFailure

-- The part of `PolicyOut` that the page reads.
pub record PolicyOut : Type 0 where
  pub id : Text
  pub category_toggles : List CategoryToggle
  pub overrides : List Override
  pub on_load_failure : LoadFailure

-- What a save sends, and what a snapshot is taken of.
pub record Contents : Type 0 where
  pub toggles : List CategoryToggle
  pub overrides : List Override
  pub failure : LoadFailure

abbrev toggle_json : CategoryToggle → Json
toggle_json t = obj (keyed "category_id" (str t.category_id) (keyed "action" (str t.action) end))

abbrev kind_text : Kind → Text
kind_text allow = codes "allow"
kind_text deny = codes "deny"

abbrev override_json : Override → Json
override_json o = obj (keyed "domain" (str o.domain) (keyed "kind" (str (kind_text o.kind)) end))

abbrev failure_text : LoadFailure → Text
failure_text fail_open = codes "FAIL_OPEN"
failure_text fail_closed = codes "FAIL_CLOSED"

-- The body of the save.
unfoldable policy_body : Contents → Json
policy_body c = obj (
    keyed "on_load_failure" (str (failure_text c.failure)) (
      keyed "category_toggles" (arr (of_list (map toggle_json c.toggles)))
        (keyed "overrides" (arr (of_list (map override_json c.overrides))) end)))

-- `localeCompare` is at most 0, on the keys of two entries.
abbrev pub toggle_le : (Text → Text → Bool) → CategoryToggle → CategoryToggle → Bool
toggle_le le a b = le a.category_id b.category_id

abbrev pub override_le : (Text → Text → Bool) → Override → Override → Bool
override_le le a b = le a.domain b.domain

-- What `normalizePolicyState` makes the text of.
abbrev pub sorted : (Text → Text → Bool) → Contents → Contents
sorted le c = record {
  toggles = sort_by (toggle_le le) c.toggles;
  overrides = sort_by (override_le le) c.overrides;
  failure = c.failure;
}

unfoldable pub snapshot_json : Contents → Json
snapshot_json c = obj (
    keyed "toggles" (arr (of_list (map toggle_json c.toggles))) (
      keyed "overrides" (arr (of_list (map override_json c.overrides)))
        (keyed "failure" (str (failure_text c.failure)) end)))

pub record Editor : Type 0 where
  pub contents : Contents
  pub baseline : Text
  -- `policy?.id` when the effect last ran.
  pub loaded : Option Text
  -- The contents of each save that was sent and not answered.
  pub saving : List Contents

-- `setCategoryAction`.
unfoldable pub set_category_action : Text → Text → List CategoryToggle → List CategoryToggle
set_category_action category_id action prev =
    let rest = keep_if (λ c. not (text_eq c.category_id category_id)) prev in
    if text_eq action (codes "off")
    then rest
    else rest ++ (record { category_id = category_id; action = action } ∷ [])

-- The handlers of "Remove" and of the form that adds an override.
unfoldable pub remove_override : Text → List Override → List Override
remove_override domain prev = keep_if (λ x. not (text_eq x.domain domain)) prev

unfoldable pub add_override : Override → List Override → List Override
add_override o prev = keep_if (λ x. not (text_eq x.domain o.domain)) prev ++ (o ∷ [])

-- `policy?.category_toggles ?? []` and so on.
abbrev pub contents_of : Option PolicyOut → Contents
contents_of none = record { toggles = []; overrides = []; failure = fail_open }
contents_of (some q) = record {
  toggles = q.category_toggles;
  overrides = q.overrides;
  failure = q.on_load_failure;
}

abbrev id_of : Option PolicyOut → Option Text
id_of none = none
id_of (some q) = some q.id

abbrev same_id : Option Text → Option Text → Bool
same_id none none = true
same_id (some a) (some b) = text_eq a b
same_id _ _ = false

pub data EditorEvent : Type 0 where
  -- The page is rendered with the query's data, and the effect on `policy?.id` runs if it changed.
  data_changed : Option PolicyOut → EditorEvent
  category_action : Text → Text → EditorEvent
  override_removed : Text → EditorEvent
  override_added : Override → EditorEvent
  failure_changed : LoadFailure → EditorEvent
  -- `applyDuplicatedPolicy`.
  duplicated : PolicyOut → EditorEvent
  -- `save`, and the `onSuccess` and `onError` of the oldest save.
  save save_succeeded save_failed : EditorEvent

module _ (p : Platform) (le : Text → Text → Bool) where
  -- `normalizePolicyState`.
  unfoldable pub normalize_policy_state : Contents → Text
  unfolding snapshot_json
  normalize_policy_state c = p.stringify (snapshot_json (sorted le c))

  -- The first render and the effect after it.
  unfoldable pub load_policy : Option PolicyOut → List Contents → Editor
  unfolding normalize_policy_state
  load_policy policy saving = record {
    contents = contents_of policy;
    baseline = normalize_policy_state (contents_of policy);
    loaded = id_of policy;
    saving = saving;
  }

  -- `isDirty`.
  unfoldable pub is_dirty : Editor → Bool
  unfolding normalize_policy_state
  is_dirty s = not (text_eq (normalize_policy_state s.contents) s.baseline)

  -- What an edit makes of the contents.
  unfoldable pub edit : EditorEvent → Contents → Contents
  unfolding set_category_action remove_override add_override
  edit (category_action c a) k = record k { toggles = set_category_action c a k.toggles }
  edit (override_removed d) k = record k { overrides = remove_override d k.overrides }
  edit (override_added o) k = record k { overrides = add_override o k.overrides }
  edit (failure_changed f) k = record k { failure = f }
  edit (duplicated q) k = contents_of (some q)
  edit _ k = k

  -- `onSuccess` puts the snapshot of what was sent in `baselineRef`.
  abbrev answered : List Contents → Editor → Editor
  answered [] s = s
  answered (c ∷ rest) s = record s { baseline = normalize_policy_state c; saving = rest }

  abbrev refused : List Contents → Editor → Editor
  refused [] s = s
  refused (c ∷ rest) s = record s { saving = rest }

  unfoldable pub editor_step : EditorEvent → Editor → Editor
  unfolding load_policy edit
  editor_step (data_changed policy) s =
      if same_id (id_of policy) s.loaded then s else load_policy policy s.saving
  editor_step save s = record s { saving = s.saving ++ (s.contents ∷ []) }
  editor_step save_succeeded s = answered s.saving s
  editor_step save_failed s = refused s.saving s
  editor_step e s = record s { contents = edit e s.contents }

  unfoldable pub editor_run : List EditorEvent → Editor → Editor
  unfolding editor_step
  editor_run [] s = s
  editor_run (e ∷ es) s = editor_run es (editor_step e s)
