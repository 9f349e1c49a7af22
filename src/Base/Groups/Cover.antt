-- ===== src/Base/Groups/Cover.antt =====
-- Groups that lose no row and show none twice.
use mathlib.Core.Path.{◌≡◌, refl, sym, ap, subst}
use mathlib.Core.Logic.{inl, inr}
use mathlib.Core.Bool.{Bool, true, false, not}
use mathlib.Core.List.{List, [], ◌∷◌, map, Permᴰ}
use mathlib.Core.List.Permᴰ
use native.Mathlib.Omega.{arith}
use mantis_dns.Base.Tests.{Bool-cases, &&_true}
use mantis_dns.Base.Lists.{all}
use mantis_dns.Base.Sets.{IsEquality, has, distinct, symmetric}
use mantis_dns.Base.Groups.{concat, rows_of}

module _ {ℓ} {K A : Type ℓ} (eq : K → K → Bool) (key : A → K) (E : IsEquality eq) where
  rows_of-absent :
      (x : A) (xs : List A) (ks : List K)
      → has eq ks (key x) ≡ false
      → map (rows_of eq key (x ∷ xs)) ks ≡ map (rows_of eq key xs) ks
  rows_of-absent x xs [] h = refl
  rows_of-absent x xs (k ∷ ks) h = ground (arith, symmetric eq E k (key x), rows_of-absent x xs ks)

  once :
      (x : A) (xs : List A) (ks : List K)
      → distinct eq ks ≡ true
      → has eq ks (key x) ≡ true
      → Permᴰ (concat (map (rows_of eq key (x ∷ xs)) ks)) (x ∷ concat (map (rows_of eq key xs) ks))
  once x xs [] d h = ground arith
  once x xs (k ∷ ks) d h =
      let (fresh, rest) = &&_true (not (has eq ks k)) (distinct eq ks) d in
      elim (Bool-cases (eq (key x) k)) [
        | inl e ↦
            subst (λ (l : List A). Permᴰ l (x ∷ concat (map (rows_of eq key xs) (k ∷ ks))))
              (sym (
                rw
                  (e, rows_of-absent x xs ks (ground (arith, ap (has eq ks) (E.sound (key x) k e))))
                  refl))
              (Permᴰ.refl _)
        | inr e ↦ rw e (
            Permᴰ.trans
              (Permᴰ.append_left (rows_of eq key xs k)
                (once x xs ks rest (ground (arith, symmetric eq E k (key x)))))
              (Permᴰ.middle x (rows_of eq key xs k) (concat (map (rows_of eq key xs) ks))))
      ]

  rows_of_none : (ks : List K) → concat (map (rows_of eq key []) ks) ≡ []
  rows_of_none [] = refl
  rows_of_none (k ∷ ks) = rows_of_none ks

  -- Where the keys differ from one another and every row has one of them, the groups together are a
  -- permutation of the rows.
  pub concat-rows_of :
      (ks : List K) (xs : List A)
      → distinct eq ks ≡ true
      → all (λ x. has eq ks (key x)) xs ≡ true
      → Permᴰ (concat (map (rows_of eq key xs) ks)) xs
  concat-rows_of ks [] d h = subst (λ (l : List A). Permᴰ l []) (sym (rows_of_none ks)) Permᴰ.nil
  concat-rows_of ks (x ∷ xs) d h =
      let (first, others) = &&_true (has eq ks (key x)) (all (λ y. has eq ks (key y)) xs) h in
      Permᴰ.trans (once x xs ks d first) (Permᴰ.cons refl (concat-rows_of ks xs d others))
