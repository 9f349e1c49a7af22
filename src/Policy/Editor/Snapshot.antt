-- ===== src/Policy/Editor/Snapshot.antt =====
-- `normalizePolicyState`: which policies have the same snapshot.
use mantis_dns.Base.{Bool, true, ◌&&◌, List, [], ◌∷◌, map, ◌≡◌, refl, ap, subst, sym, arith, ◌↔◌}
use mathlib.Core.List.{Permᴰ}
use mathlib.Core.List.Permᴰ
use mantis_dns.Base.Sort.{all_apart, IsOrder, sort_by_permuted, sort_by-Permᴰ}
use mantis_dns.Base.Text.{Text}
use mantis_dns.Base.Json.{of_list}
use mantis_dns.Base.Platform.{Platform, IsFaithful, stringify-injective}
use mantis_dns.Policy.Domain.{Kind, allow, deny, Override}
use mantis_dns.Policy.Editor.{
  CategoryToggle, LoadFailure, fail_open, fail_closed, Contents, toggle_json, kind_text,
  override_json, failure_text, toggle_le, override_le, sorted, snapshot_json,
  normalize_policy_state,
}

-- The same entries, in any order, and the same failure policy.
pub record Permuted (c d : Contents) : Type 0 where
  pub toggles : Permᴰ c.toggles d.toggles
  pub overrides : Permᴰ c.overrides d.overrides
  pub failure : c.failure ≡ d.failure

-- The ids of the categories are told apart by the comparison, and so are the domains.
abbrev pub told_apart : (Text → Text → Bool) → Contents → Bool
told_apart le c = all_apart (toggle_le le) c.toggles && all_apart (override_le le) c.overrides

-- What `localeCompare` promises.
abbrev pub IsTextOrder : (Text → Text → Bool) → Type 0
IsTextOrder le = IsOrder le

sorted-Permuted :
    (le : Text → Text → Bool)
    → IsTextOrder le
    → (c d : Contents) → Permuted c d
    → told_apart le c ≡ true
    → sorted le c ≡ sorted le d
sorted-Permuted le o c d q h = cc (
  sort_by_permuted (toggle_le le)
      (record {
        total = λ x y. o.total x.category_id y.category_id;
        transitive = λ x y z. o.transitive x.category_id y.category_id z.category_id;
      })
      c.toggles d.toggles q.toggles (ground arith),
  sort_by_permuted (override_le le)
      (record {
        total = λ x y. o.total x.domain y.domain;
        transitive = λ x y z. o.transitive x.domain y.domain z.domain;
      })
      c.overrides d.overrides q.overrides (ground arith),
  q.failure,
)

toggles-injective :
    (xs ys : List CategoryToggle)
    → of_list (map toggle_json xs) ≡ of_list (map toggle_json ys)
    → xs ≡ ys
toggles-injective [] [] h = refl
toggles-injective [] (y ∷ ys) h = ground arith
toggles-injective (x ∷ xs) [] h = ground arith
toggles-injective (x ∷ xs) (y ∷ ys) h = ground (arith, toggles-injective xs ys)

kind_text-injective : (a b : Kind) → kind_text a ≡ kind_text b → a ≡ b
kind_text-injective allow allow h = refl
kind_text-injective allow deny h = ground arith
kind_text-injective deny allow h = ground arith
kind_text-injective deny deny h = refl

overrides-injective :
    (xs ys : List Override)
    → of_list (map override_json xs) ≡ of_list (map override_json ys)
    → xs ≡ ys
overrides-injective [] [] h = refl
overrides-injective [] (y ∷ ys) h = ground arith
overrides-injective (x ∷ xs) [] h = ground arith
overrides-injective (x ∷ xs) (y ∷ ys) h =
    ground (arith, kind_text-injective x.kind y.kind, overrides-injective xs ys)

failure_text-injective : (a b : LoadFailure) → failure_text a ≡ failure_text b → a ≡ b
failure_text-injective fail_open fail_open h = refl
failure_text-injective fail_open fail_closed h = ground arith
failure_text-injective fail_closed fail_open h = ground arith
failure_text-injective fail_closed fail_closed h = refl

snapshot_json-injective : (c d : Contents) → snapshot_json c ≡ snapshot_json d → c ≡ d
unfolding snapshot_json
snapshot_json-injective c d h = ground (
  arith,
  toggles-injective c.toggles d.toggles,
  overrides-injective c.overrides d.overrides,
  failure_text-injective c.failure d.failure,
)

sorted-injective :
    (le : Text → Text → Bool) (c d : Contents) → sorted le c ≡ sorted le d → Permuted c d
sorted-injective le c d h = record {
  toggles =
      Permᴰ.trans (Permᴰ.symm (sort_by-Permᴰ (toggle_le le) c.toggles))
        (subst (λ s. Permᴰ s.toggles d.toggles) (sym h) (sort_by-Permᴰ (toggle_le le) d.toggles));
  overrides = Permᴰ.trans (Permᴰ.symm (sort_by-Permᴰ (override_le le) c.overrides)) (
      subst (λ s. Permᴰ s.overrides d.overrides) (sym h)
        (sort_by-Permᴰ (override_le le) d.overrides));
  failure = ap (λ s. s.failure) h;
}

-- Two policies have the same snapshot exactly when they have the same categories and overrides, in
-- any order, and the same failure policy: where JSON reads back as it was written, and
-- `localeCompare` orders the ids and tells those of the first policy apart.
pub normalize_policy_state-Permuted :
    (p : Platform) (le : Text → Text → Bool)
    → IsFaithful p
    → IsTextOrder le
    → (c d : Contents) → told_apart le c ≡ true
    → (normalize_policy_state p le c ≡ normalize_policy_state p le d) ↔ Permuted c d
unfolding normalize_policy_state
normalize_policy_state-Permuted p le F o c d h = (
  λ e. sorted-injective le c d (
      snapshot_json-injective (sorted le c) (sorted le d)
        (stringify-injective p F (snapshot_json (sorted le c)) (snapshot_json (sorted le d)) e)),
  λ q. ap (λ s. p.stringify (snapshot_json s)) (sorted-Permuted le o c d q h),
)
