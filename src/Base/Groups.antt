-- ===== src/Base/Groups.antt =====
-- Rows put into groups by a `Map` of arrays, and the order in which the groups are shown.
pub mod Cover
use mathlib.Core.Path.{◌≡◌, refl, sym, ap, ◌∙◌, subst}
use mathlib.Core.Logic.{inl, inr}
use mathlib.Core.Bool.{Bool, true, false, not, ◌&&◌, ◌||◌}
use mathlib.Core.List.{List, [], ◌∷◌, ◌++◌, map, append-nil, append_assoc, Permᴰ}
use mathlib.Core.List.Permᴰ
use native.Mathlib.Omega.{arith}
use mantis_dns.Base.Tests.{if◌then◌else◌, Bool-cases, &&_true}
use mantis_dns.Base.Lists.{any, keep_if, any-append}
use mantis_dns.Base.Sort.{sort_by, sort_by-Permᴰ}
use mantis_dns.Base.Sets.{
  IsEquality, has, add, add_all, set_of, distinct, symmetric, has-keep_if, distinct-keep_if,
  distinct-append, distinct-add_all, has-add_all,
}

abbrev pub concat {ℓ} : {A : Type ℓ} → List (List A) → List A
concat [] = []
concat (xs ∷ xss) = xs ++ concat xss

module _ {ℓ} {K A : Type ℓ} (eq : K → K → Bool) (key : A → K) where
  -- `map.get(k) ?? []`.
  abbrev pub group_of : List (K × List A) → K → List A
  group_of [] k = []
  group_of ((j, xs) ∷ gs) k = if eq j k then xs else group_of gs k

  -- `const list = map.get(k) ?? []; list.push(x); map.set(k, list)`.
  abbrev pub push : List (K × List A) → K → A → List (K × List A)
  push [] k x = (k, x ∷ []) ∷ []
  push ((j, xs) ∷ gs) k x =
      let rest = push gs k x in if eq j k then (j, xs ++ x ∷ []) ∷ gs else (j, xs) ∷ rest

  -- The loop over the rows.
  abbrev pub collect : List (K × List A) → List A → List (K × List A)
  collect gs [] = gs
  collect gs (x ∷ xs) = collect (push gs (key x) x) xs

  abbrev pub keys_of : List (K × List A) → List K
  keys_of gs = map (λ g. g.0) gs

  -- The rows of a key.
  abbrev pub rows_of : List A → K → List A
  rows_of xs k = keep_if (λ x. eq (key x) k) xs

  group_of-push :
      IsEquality eq
      → (gs : List (K × List A)) (k : K) (x : A) (j : K)
      → group_of (push gs k x) j ≡ group_of gs j ++ (if eq k j then x ∷ [] else [])
  group_of-push E [] k x j = ground arith
  group_of-push E ((i, xs) ∷ gs) k x j = elim (Bool-cases (eq i k)) [
    | inl e ↦ elim (Bool-cases (eq i j)) [
      | inl d ↦ ground (arith, ap (λ (z : K). eq z j) (E.sound i k e))
      | inr d ↦ ground (arith, ap (λ (z : K). eq z j) (E.sound i k e), append-nil (group_of gs j))
    ]
    | inr e ↦ elim (Bool-cases (eq i j)) [
      | inl d ↦ ground (arith, ap (eq k) (E.sound i j d), symmetric eq E i k, append-nil xs)
      | inr d ↦ ground (arith, group_of-push E gs k x j)
    ]
  ]

  -- The map holds the rows of every key, in their order.
  pub group_of-collect :
      IsEquality eq
      → (gs : List (K × List A)) (xs : List A) (k : K)
      → group_of (collect gs xs) k ≡ group_of gs k ++ rows_of xs k
  group_of-collect E gs [] k = sym (append-nil (group_of gs k))
  group_of-collect E gs (x ∷ xs) k =
      group_of-collect E (push gs (key x) x) xs k
      ∙ ap (λ (ys : List A). ys ++ rows_of xs k) (group_of-push E gs (key x) x k)
      ∙ append_assoc (group_of gs k) (if eq (key x) k then x ∷ [] else []) (rows_of xs k)
      ∙ ap (λ (ys : List A). group_of gs k ++ ys)
          (elim (Bool-cases (eq (key x) k)) [ inl e ↦ rw e refl | inr e ↦ rw e refl ])

  keys_of-push :
      (gs : List (K × List A)) (k : K) (x : A) → keys_of (push gs k x) ≡ add eq (keys_of gs) k
  keys_of-push [] k x = refl
  keys_of-push ((j, xs) ∷ gs) k x = ground (arith, keys_of-push gs k x)

  -- Its keys are those of the rows, in the order in which they first occur.
  pub keys_of-collect :
      (gs : List (K × List A)) (xs : List A)
      → keys_of (collect gs xs) ≡ add_all eq (keys_of gs) (map key xs)
  keys_of-collect gs [] = refl
  keys_of-collect gs (x ∷ xs) =
      keys_of-collect (push gs (key x) x) xs
      ∙ ap (λ (ks : List K). add_all eq ks (map key xs)) (keys_of-push gs (key x) x)
