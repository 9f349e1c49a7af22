-- ===== src/Base/Sets/Permuted.antt =====
-- A permutation has the same members, and keeps them apart.
use mathlib.Core.Path.{◌≡◌, refl, ap, ◌∙◌}
use mathlib.Core.Bool.{Bool}
use mathlib.Core.List.{List, Permᴰ}
use native.Mathlib.Omega.{arith}
use mantis_dns.Base.Lists.{length}
use mantis_dns.Base.Sets.{IsEquality, has, distinct, symmetric}

pub length-Permᴰ {ℓ} : {A : Type ℓ} (xs ys : List A) → Permᴰ xs ys → length xs ≡ length ys
length-Permᴰ _ _ Permᴰ.nil = refl
length-Permᴰ _ _ (Permᴰ.cons {l₁ = xs} {l₂ = ys} e q) = ground (arith, length-Permᴰ xs ys q)
length-Permᴰ _ _ (Permᴰ.swap e f) = refl
length-Permᴰ _ _ (Permᴰ.trans {l₁ = xs} {l₂ = ys} {l₃ = zs} q r) =
    length-Permᴰ xs ys q ∙ length-Permᴰ ys zs r

module _ {ℓ} {A : Type ℓ} (eq : A → A → Bool) where
  pub has-Permᴰ : (x : A) (xs ys : List A) → Permᴰ xs ys → has eq xs x ≡ has eq ys x
  has-Permᴰ x _ _ Permᴰ.nil = refl
  has-Permᴰ x _ _ (Permᴰ.cons {l₁ = xs} {l₂ = ys} e q) =
      ground (arith, ap (λ z. eq z x) e, has-Permᴰ x xs ys q)
  has-Permᴰ x _ _ (Permᴰ.swap e f) = ground (arith, ap (λ z. eq z x) e, ap (λ z. eq z x) f)
  has-Permᴰ x _ _ (Permᴰ.trans {l₁ = xs} {l₂ = ys} {l₃ = zs} q r) =
      has-Permᴰ x xs ys q ∙ has-Permᴰ x ys zs r

  pub distinct-Permᴰ :
      IsEquality eq → (xs ys : List A) → Permᴰ xs ys → distinct eq xs ≡ distinct eq ys
  distinct-Permᴰ E _ _ Permᴰ.nil = refl
  distinct-Permᴰ E _ _ (Permᴰ.cons {a = a} {l₁ = xs} {l₂ = ys} e q) =
      ground (arith, has-Permᴰ a xs ys q, ap (has eq ys) e, distinct-Permᴰ E xs ys q)
  distinct-Permᴰ E _ _ (Permᴰ.swap {a = a} {b = b} {a' = a'} {b' = b'} {l = l} e f) =
      let same : eq b' a' ≡ eq a b = cc (e, f) in
      ground (arith, symmetric eq E a b, same, ap (has eq l) e, ap (has eq l) f)
  distinct-Permᴰ E _ _ (Permᴰ.trans {l₁ = xs} {l₂ = ys} {l₃ = zs} q r) =
      distinct-Permᴰ E xs ys q ∙ distinct-Permᴰ E ys zs r
