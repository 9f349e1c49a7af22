-- ===== src/Base/Sets.antt =====
-- `Set` of JavaScript as the list of its members, in the order in which they were added.
pub mod Permuted
use mathlib.Core.Path.{◌≡◌, refl, sym, ap, ◌∙◌}
use mathlib.Core.Bool.{Bool, true, false, not, ◌&&◌, ◌||◌}
use mathlib.Core.List.{List, [], ◌∷◌, ◌++◌}
use native.Mathlib.Omega.{arith}
use mathlib.Core.Logic.{inl, inr}
use mantis_dns.Base.Tests.{if◌then◌else◌, Bool-cases, &&_true}
use mantis_dns.Base.Lists.{any, keep_if, any-append}

-- The test decides equality.
pub record IsEquality {ℓ} {A : Type ℓ} (eq : A → A → Bool) : Type ℓ where
  pub reflexive : (x : A) → eq x x ≡ true
  pub sound : (x y : A) → eq x y ≡ true → x ≡ y

module _ {ℓ} {A : Type ℓ} (eq : A → A → Bool) where
  abbrev pub has : List A → A → Bool
  has s x = any (λ y. eq y x) s

  abbrev pub add : List A → A → List A
  add s x = if has s x then s else s ++ x ∷ []

  -- `delete`.
  abbrev pub drop : List A → A → List A
  drop s x = keep_if (λ y. not (eq y x)) s

  abbrev pub add_all : List A → List A → List A
  add_all s [] = s
  add_all s (x ∷ xs) = add_all (add s x) xs

  abbrev pub drop_all : List A → List A → List A
  drop_all s [] = s
  drop_all s (x ∷ xs) = drop_all (drop s x) xs

  -- `new Set(xs)`.
  abbrev pub set_of : List A → List A
  set_of xs = add_all [] xs

  abbrev pub distinct : List A → Bool
  distinct [] = true
  distinct (x ∷ xs) = not (has xs x) && distinct xs

  pub has-keep_if :
      IsEquality eq → (p : A → Bool) (s : List A) (y : A) → has (keep_if p s) y ≡ (has s y && p y)
  has-keep_if E p [] y = refl
  has-keep_if E p (x ∷ s) y = elim (Bool-cases (eq x y)) [
    | inl e ↦ ground (arith, has-keep_if E p s y, ap p (E.sound x y e))
    | inr e ↦ ground (arith, has-keep_if E p s y)
  ]

  pub symmetric : IsEquality eq → (x y : A) → eq x y ≡ eq y x
  symmetric E x y = elim (Bool-cases (eq x y)) [
    | inl e ↦ cc (E.sound x y e)
    | inr e ↦ elim (Bool-cases (eq y x)) [ inl d ↦ cc (E.sound y x d) | inr d ↦ e ∙ sym d ]
  ]

  pub has-add : IsEquality eq → (s : List A) (x y : A) → has (add s x) y ≡ (has s y || eq x y)
  has-add E s x y = elim (Bool-cases (eq x y)) [
    | inl e ↦ ground (arith, ap (has s) (E.sound x y e), any-append (λ z. eq z y) s (x ∷ []))
    | inr e ↦ ground (arith, any-append (λ z. eq z y) s (x ∷ []))
  ]

  pub has-drop :
      IsEquality eq → (s : List A) (x y : A) → has (drop s x) y ≡ (has s y && not (eq x y))
  has-drop E s x y = ground (arith, has-keep_if E (λ z. not (eq z x)) s y, symmetric E x y)

  pub has-add_all :
      IsEquality eq → (s xs : List A) (y : A) → has (add_all s xs) y ≡ (has s y || has xs y)
  has-add_all E s [] y = ground arith
  has-add_all E s (x ∷ xs) y = ground (arith, has-add_all E (add s x) xs y, has-add E s x y)

  pub has-drop_all :
      IsEquality eq → (s xs : List A) (y : A) → has (drop_all s xs) y ≡ (has s y && not (has xs y))
  has-drop_all E s [] y = ground arith
  has-drop_all E s (x ∷ xs) y = ground (arith, has-drop_all E (drop s x) xs y, has-drop E s x y)

  distinct-add :
      IsEquality eq → (s : List A) (x : A) → distinct s ≡ true → distinct (add s x) ≡ true
  distinct-add E s x h = elim (Bool-cases (has s x)) [
    | inl e ↦ ground arith
    | inr e ↦ rw e (fresh s h e)
  ]
    where
      fresh : (t : List A) → distinct t ≡ true → has t x ≡ false → distinct (t ++ x ∷ []) ≡ true
      fresh [] h e = refl
      fresh (y ∷ t) h e =
          ground (arith, fresh t, any-append (λ z. eq z y) t (x ∷ []), symmetric E x y)

  pub distinct-add_all :
      IsEquality eq → (s xs : List A) → distinct s ≡ true → distinct (add_all s xs) ≡ true
  distinct-add_all E s [] h = h
  distinct-add_all E s (x ∷ xs) h = distinct-add_all E (add s x) xs (distinct-add E s x h)

  pub distinct-keep_if :
      IsEquality eq
      → (p : A → Bool) (s : List A) → distinct s ≡ true
      → distinct (keep_if p s) ≡ true
  distinct-keep_if E p [] h = refl
  distinct-keep_if E p (x ∷ s) h = ground (arith, distinct-keep_if E p s, has-keep_if E p s x)

  pub distinct-append :
      IsEquality eq
      → (s t : List A) → distinct s ≡ true
      → distinct t ≡ true
      → ((y : A) → has s y ≡ true → has t y ≡ false)
      → distinct (s ++ t) ≡ true
  distinct-append E [] t h k apart = k
  distinct-append E (x ∷ s) t h k apart = ground (
    arith,
    any-append (λ z. eq z x) s t,
    apart x,
    E.reflexive x,
    distinct-append E s t (&&_true (not (has s x)) (distinct s) h).1 k
        (λ y e. apart y (ground arith)),
  )
