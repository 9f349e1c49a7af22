-- ===== src/Tests/Policy.antt =====
-- The policy editor at concrete inputs.
use mantis_dns.Base.{
  Bool, true, false, ◌&&◌, ◌||◌, none, some, [], ◌∷◌, ◌≡◌, refl, arith, ◌↔◌, ltb, ◌==◌,
}
use mantis_dns.Base.Text.{Text, codes}
use mantis_dns.Policy.Domain.{allow, deny, Override}
use mantis_dns.Policy.Editor.{
  CategoryToggle, fail_open, PolicyOut, data_changed, override_added, contents_of, Contents, Editor,
  set_category_action, category_action, save, save_succeeded, normalize_policy_state, is_dirty,
  editor_step, editor_run, edit,
}
use mantis_dns.Policy.Editor.Snapshot.{
  Permuted, told_apart, IsTextOrder, normalize_policy_state-Permuted,
}
use mantis_dns.Policy.Editor.Laws.{is_dirty-saved, data_changed-saved}
use mantis_dns.Tests.Fixtures.{platform, platform-IsFaithful}

-- The order of code units.
abbrev text_le : Text → Text → Bool
text_le [] t = true
text_le (a ∷ s) [] = false
text_le (a ∷ s) (b ∷ t) = ltb a b || (a == b && text_le s t)

text_le_total : (s t : Text) → text_le s t ≡ false → text_le t s ≡ true
text_le_total [] t h = ground arith
text_le_total (a ∷ s) [] h = refl
text_le_total (a ∷ s) (b ∷ t) h = ground (arith, text_le_total s t)

text_le_trans : (s t u : Text) → text_le s t ≡ true → text_le t u ≡ true → text_le s u ≡ true
text_le_trans [] t u h k = refl
text_le_trans (a ∷ s) [] u h k = ground arith
text_le_trans (a ∷ s) (b ∷ t) [] h k = ground arith
text_le_trans (a ∷ s) (b ∷ t) (c ∷ u) h k = ground (arith, text_le_trans s t u)

text_le-IsTextOrder : IsTextOrder text_le
text_le-IsTextOrder = record { total = text_le_total; transitive = text_le_trans }

abbrev toggle : CategoryToggle
toggle = record { category_id = codes "ads"; action = codes "ACTION_BLOCK" }

abbrev ads : Override
ads = record { domain = codes "ads.example"; kind = deny }

abbrev shop : Override
shop = record { domain = codes "shop.example"; kind = allow }

abbrev contents : Contents
contents = record { toggles = toggle ∷ []; overrides = shop ∷ ads ∷ []; failure = fail_open }

abbrev reordered : Contents
reordered = record { toggles = toggle ∷ []; overrides = ads ∷ shop ∷ []; failure = fail_open }

normalize_policy_state-Permuted_example :
    (normalize_policy_state platform text_le contents
      ≡ normalize_policy_state platform text_le reordered)
    ↔ Permuted contents reordered
normalize_policy_state-Permuted_example =
    normalize_policy_state-Permuted platform text_le platform-IsFaithful text_le-IsTextOrder
      contents reordered refl

abbrev edited : Editor
edited = record { contents = contents; baseline = []; loaded = none; saving = [] }

still_apart :
    told_apart text_le
      (editor_run platform text_le
        (category_action (codes "news") (codes "ACTION_BLOCK") ∷ [])
        (editor_step platform text_le save edited)).contents
    ≡ true
unfolding editor_run edit set_category_action
still_apart = refl

is_dirty-saved_example :
    let later =
      editor_run platform text_le
        (category_action (codes "news") (codes "ACTION_BLOCK") ∷ [])
        (editor_step platform text_le save edited) in
    (is_dirty platform text_le (editor_step platform text_le save_succeeded later) ≡ false)
    ↔ Permuted later.contents edited.contents
is_dirty-saved_example =
    is_dirty-saved platform text_le platform-IsFaithful text_le-IsTextOrder
      (category_action (codes "news") (codes "ACTION_BLOCK") ∷ []) edited refl refl still_apart

abbrev stored : PolicyOut
stored = record {
  id = codes "p1";
  category_toggles = toggle ∷ [];
  overrides = shop ∷ ads ∷ [];
  on_load_failure = fail_open;
}

data_changed-saved_example :
    let later =
      editor_run platform text_le
        (override_added shop ∷ [])
        (editor_step platform text_le save edited) in
    let fetched =
      editor_step platform text_le
        (data_changed (some stored))
        (editor_step platform text_le save_succeeded later) in
    (fetched.contents ≡ contents_of (some stored)) × (is_dirty platform text_le fetched ≡ false)
data_changed-saved_example =
    data_changed-saved platform text_le stored (override_added shop ∷ []) edited refl refl
