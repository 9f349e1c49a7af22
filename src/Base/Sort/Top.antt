-- ===== src/Base/Sort/Top.antt =====
-- The first elements of a sorted list: none of the others comes before one of them.
use mathlib.Core.Path.{◌≡◌, refl, ap}
use mathlib.Core.Bool.{Bool, true, ◌&&◌}
use mathlib.Core.Logic.{inl, inr}
use mathlib.Core.List.{List, [], ◌∷◌, ◌++◌}
use native.Mathlib.Omega.{arith}
use Prim.Native.Nat.{ℕ, zero, suc}
use mantis_dns.Base.Tests.{Bool-cases}
use mantis_dns.Base.Lists.{all}
use mantis_dns.Base.Sort.{sort_by, insert_by, IsOrder}

-- `xs.slice(0, n)` and `xs.slice(n)`.
abbrev pub take_first {ℓ} : {A : Type ℓ} → ℕ → List A → List A
take_first zero xs = []
take_first (suc n) [] = []
take_first (suc n) (x ∷ xs) = x ∷ take_first n xs

abbrev pub drop_first {ℓ} : {A : Type ℓ} → ℕ → List A → List A
drop_first zero xs = xs
drop_first (suc n) [] = []
drop_first (suc n) (x ∷ xs) = drop_first n xs

pub take_first-drop_first {ℓ} :
    {A : Type ℓ} (n : ℕ) (xs : List A) → take_first n xs ++ drop_first n xs ≡ xs
take_first-drop_first zero xs = refl
take_first-drop_first (suc n) [] = refl
take_first-drop_first (suc n) (x ∷ xs) = ap (◌∷◌ x) (take_first-drop_first n xs)

module _ {ℓ} {A : Type ℓ} (le : A → A → Bool) where
  abbrev pub is_sorted : List A → Bool
  is_sorted [] = true
  is_sorted (x ∷ xs) = all (le x) xs && is_sorted xs

  all-insert_by :
      (x y : A) (ys : List A)
      → le x y ≡ true
      → all (le x) ys ≡ true
      → all (le x) (insert_by le y ys) ≡ true
  all-insert_by x y [] h k = ground arith
  all-insert_by x y (z ∷ ys) h k = ground (arith, all-insert_by x y ys)

  all-transitive :
      IsOrder le
      → (x y : A) (ys : List A) → le x y ≡ true
      → all (le y) ys ≡ true
      → all (le x) ys ≡ true
  all-transitive o x y [] h k = refl
  all-transitive o x y (z ∷ ys) h k = ground (arith, o.transitive x y z, all-transitive o x y ys)

  is_sorted-insert_by :
      IsOrder le
      → (x : A) (ys : List A) → is_sorted ys ≡ true
      → is_sorted (insert_by le x ys) ≡ true
  is_sorted-insert_by o x [] h = refl
  is_sorted-insert_by o x (y ∷ ys) h = elim (Bool-cases (le x y)) [
    | inl e ↦ ground (arith, all-transitive o x y ys)
    | inr e ↦ ground (arith, o.total x y, all-insert_by y x ys, is_sorted-insert_by o x ys)
  ]

  pub is_sorted-sort_by : IsOrder le → (xs : List A) → is_sorted (sort_by le xs) ≡ true
  is_sorted-sort_by o [] = refl
  is_sorted-sort_by o (x ∷ xs) = is_sorted-insert_by o x (sort_by le xs) (is_sorted-sort_by o xs)

  all-drop_first :
      (x : A) (n : ℕ) (xs : List A) → all (le x) xs ≡ true → all (le x) (drop_first n xs) ≡ true
  all-drop_first x zero xs h = h
  all-drop_first x (suc n) [] h = refl
  all-drop_first x (suc n) (y ∷ xs) h = ground (arith, all-drop_first x n xs)

  -- Each of the first elements is at most each of the others.
  pub take_first-top :
      (n : ℕ) (xs : List A)
      → is_sorted xs ≡ true
      → all (λ x. all (le x) (drop_first n xs)) (take_first n xs) ≡ true
  take_first-top zero xs h = refl
  take_first-top (suc n) [] h = refl
  take_first-top (suc n) (x ∷ xs) h = ground (arith, all-drop_first x n xs, take_first-top n xs)

  all-take_first :
      (x : A) (n : ℕ) (xs : List A) → all (le x) xs ≡ true → all (le x) (take_first n xs) ≡ true
  all-take_first x zero xs h = refl
  all-take_first x (suc n) [] h = refl
  all-take_first x (suc n) (y ∷ xs) h = ground (arith, all-take_first x n xs)

  pub is_sorted-take_first :
      (n : ℕ) (xs : List A) → is_sorted xs ≡ true → is_sorted (take_first n xs) ≡ true
  is_sorted-take_first zero xs h = refl
  is_sorted-take_first (suc n) [] h = refl
  is_sorted-take_first (suc n) (x ∷ xs) h =
      ground (arith, all-take_first x n xs, is_sorted-take_first n xs)
