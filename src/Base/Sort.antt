-- ===== src/Base/Sort.antt =====
-- `sort` with a comparison: stable, and on distinct elements independent of the order that it is given.
pub mod Top
use mathlib.Core.Path.{◌≡◌, refl, ap, ◌∙◌}
use mathlib.Core.Bool.{Bool, true, false, not, ◌&&◌}
use mathlib.Core.List.{List, [], ◌∷◌, map, Permᴰ}
use mathlib.Core.List.Permᴰ
use native.Mathlib.Omega.{arith}
use mantis_dns.Base.Tests.{if◌then◌else◌}
use mantis_dns.Base.Lists.{all}

module _ {ℓ} {A : Type ℓ} (le : A → A → Bool) where
  abbrev pub insert_by : A → List A → List A
  insert_by x [] = x ∷ []
  insert_by x (y ∷ ys) = let rest = insert_by x ys in if le x y then x ∷ y ∷ ys else y ∷ rest

  -- `xs.sort(compare)`, where `le x y` is that `compare(x, y)` is at most 0.
  abbrev pub sort_by : List A → List A
  sort_by [] = []
  sort_by (x ∷ xs) = insert_by x (sort_by xs)

  -- The comparison tells the two apart.
  abbrev pub apart : A → A → Bool
  apart x y = not (le x y && le y x)

  abbrev pub all_apart : List A → Bool
  all_apart [] = true
  all_apart (x ∷ xs) = all (apart x) xs && all_apart xs

  insert_by-Permᴰ : (x : A) (xs : List A) → Permᴰ (insert_by x xs) (x ∷ xs)
  insert_by-Permᴰ x [] = Permᴰ.refl (x ∷ [])
  insert_by-Permᴰ x (y ∷ ys) =
      elim (le x y) as (λ b. Permᴰ (if b then x ∷ y ∷ ys else y ∷ insert_by x ys) (x ∷ y ∷ ys)) [
        | true ↦ Permᴰ.refl (x ∷ y ∷ ys)
        | false ↦ Permᴰ.trans (Permᴰ.cons refl (insert_by-Permᴰ x ys)) (Permᴰ.swap refl refl)
      ]

  -- Sorting permutes.
  pub sort_by-Permᴰ : (xs : List A) → Permᴰ (sort_by xs) xs
  sort_by-Permᴰ [] = Permᴰ.nil
  sort_by-Permᴰ (x ∷ xs) =
      Permᴰ.trans (insert_by-Permᴰ x (sort_by xs)) (Permᴰ.cons refl (sort_by-Permᴰ xs))

  all-Permᴰ : (p : A → Bool) (xs ys : List A) → Permᴰ xs ys → all p xs ≡ all p ys
  all-Permᴰ p _ _ Permᴰ.nil = refl
  all-Permᴰ p _ _ (Permᴰ.cons {l₁ = xs} {l₂ = ys} e q) = ground (arith, all-Permᴰ p xs ys q)
  all-Permᴰ p _ _ (Permᴰ.swap e f) = ground arith
  all-Permᴰ p _ _ (Permᴰ.trans {l₁ = xs} {l₂ = ys} {l₃ = zs} q r) =
      all-Permᴰ p xs ys q ∙ all-Permᴰ p ys zs r

  all_apart-Permᴰ : (xs ys : List A) → Permᴰ xs ys → all_apart xs ≡ all_apart ys
  all_apart-Permᴰ _ _ Permᴰ.nil = refl
  all_apart-Permᴰ _ _ (Permᴰ.cons {a = a} {l₁ = xs} {l₂ = ys} e q) =
      ground (arith, all-Permᴰ (apart a) xs ys q, all_apart-Permᴰ xs ys q)
  all_apart-Permᴰ _ _ (Permᴰ.swap e f) = ground arith
  all_apart-Permᴰ _ _ (Permᴰ.trans {l₁ = xs} {l₂ = ys} {l₃ = zs} q r) =
      all_apart-Permᴰ xs ys q ∙ all_apart-Permᴰ ys zs r

  -- What a comparison promises.
  pub record IsOrder : Type ℓ where
    pub total : (x y : A) → le x y ≡ false → le y x ≡ true
    pub transitive : (x y z : A) → le x y ≡ true → le y z ≡ true → le x z ≡ true

  insert_by_comm :
      IsOrder
      → (x y : A) (zs : List A) → apart x y ≡ true
      → insert_by x (insert_by y zs) ≡ insert_by y (insert_by x zs)
  insert_by_comm o x y [] h = ground (arith, o.total x y, o.total y x)
  insert_by_comm o x y (z ∷ zs) h = ground (
    arith,
    o.total x y,
    o.total y x,
    o.transitive x y z,
    o.transitive y x z,
    insert_by_comm o x y zs h,
  )

  -- Two permutations of elements that are told apart are sorted to the same list.
  pub sort_by_permuted :
      IsOrder → (xs ys : List A) → Permᴰ xs ys → all_apart xs ≡ true → sort_by xs ≡ sort_by ys
  sort_by_permuted o _ _ Permᴰ.nil h = refl
  sort_by_permuted o _ _ (Permᴰ.cons {a = a} {l₁ = xs} {l₂ = ys} e q) h =
      ground (arith, sort_by_permuted o xs ys q)
  sort_by_permuted o _ _ (Permᴰ.swap {a = a} {b = b} {l = l} e f) h =
      ground (arith, insert_by_comm o a b (sort_by l))
  sort_by_permuted o _ _ (Permᴰ.trans {l₁ = xs} {l₂ = ys} {l₃ = zs} q r) h =
      sort_by_permuted o xs ys q h
      ∙ sort_by_permuted o ys zs r (ground (arith, all_apart-Permᴰ xs ys q))

-- Sorting by a key sorts the keys.
module _ {ℓ ℓ'} {A : Type ℓ} {B : Type ℓ'} (le : B → B → Bool) (key : A → B) where
  map-insert_by :
      (x : A) (ys : List A)
      → map key (insert_by (λ a b. le (key a) (key b)) x ys) ≡ insert_by le (key x) (map key ys)
  map-insert_by x [] = refl
  map-insert_by x (y ∷ ys) = ground (arith, map-insert_by x ys)

  pub map-sort_by :
      (xs : List A) → map key (sort_by (λ a b. le (key a) (key b)) xs) ≡ sort_by le (map key xs)
  map-sort_by [] = refl
  map-sort_by (x ∷ xs) =
      map-insert_by x (sort_by (λ a b. le (key a) (key b)) xs)
      ∙ ap (insert_by le (key x)) (map-sort_by xs)
