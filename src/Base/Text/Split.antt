-- ===== src/Base/Text/Split.antt =====
-- `split` at a code unit, and `trim` on what has no white space.
use mathlib.Core.Path.{◌≡◌, refl, ap, ◌∙◌}
use mathlib.Core.Bool.{Bool, true, false, not}
use mathlib.Core.List.{List, [], ◌∷◌, ◌++◌, append_assoc}
use Prim.Native.Nat.{ℕ}
use native.Mathlib.Omega.{arith}
use mantis_dns.Base.Tests.{◌==◌, if◌then◌else◌, &&_true}
use mantis_dns.Base.Lists.{all}
use mantis_dns.Base.Text.{Text, is_space, join, trim, trim_start, trim_end}

-- A code unit in front of the first text.
abbrev pub in_front : ℕ → List Text → List Text
in_front c [] = (c ∷ []) ∷ []
in_front c (t ∷ ts) = (c ∷ t) ∷ ts

-- `split(sep)`, where `sep` is one code unit.
unfoldable pub split : ℕ → Text → List Text
split sep [] = [] ∷ []
split sep (c ∷ s) = let rest = split sep s in if c == sep then [] ∷ rest else in_front c rest

abbrev pub is_free : ℕ → Text → Bool
is_free sep = all λ c. not (c == sep)

abbrev pub is_spaceless : Text → Bool
is_spaceless = all λ c. not (is_space c)

-- Up to the first separator.
pub split-free :
    (sep : ℕ) (s rest : Text)
    → is_free sep s ≡ true
    → split sep (s ++ sep ∷ rest) ≡ s ∷ split sep rest
unfolding split
split-free sep [] rest h = ground arith
split-free sep (c ∷ s) rest h =
    let (other, more) = &&_true (not (c == sep)) (is_free sep s) h in
    ground (arith, split-free sep s rest more)

pub split-last : (sep : ℕ) (s : Text) → is_free sep s ≡ true → split sep s ≡ s ∷ []
unfolding split
split-last sep [] h = refl
split-last sep (c ∷ s) h =
    let (other, more) = &&_true (not (c == sep)) (is_free sep s) h in
    ground (arith, split-last sep s more)

-- Texts without the separator, joined by it, are split again.
pub split-join :
    (sep : ℕ) (t : Text) (ts : List Text)
    → all (is_free sep) (t ∷ ts) ≡ true
    → split sep (join (sep ∷ []) (t ∷ ts)) ≡ t ∷ ts
unfolding join
split-join sep t [] h = split-last sep t (&&_true (is_free sep t) true h).0
split-join sep t (u ∷ ts) h =
    let (first, others) = &&_true (is_free sep t) (all (is_free sep) (u ∷ ts)) h in
    ap (split sep) (append_assoc t (sep ∷ []) (join (sep ∷ []) (u ∷ ts)))
    ∙ split-free sep t (join (sep ∷ []) (u ∷ ts)) first
    ∙ ap (◌∷◌ t) (split-join sep u ts others)

trim_start-spaceless : (s : Text) → is_spaceless s ≡ true → trim_start s ≡ s
unfolding trim_start
trim_start-spaceless [] h = refl
trim_start-spaceless (c ∷ s) h =
    let (full, more) = &&_true (not (is_space c)) (is_spaceless s) h in go (is_space c) full
  where
    go : (b : Bool) → not b ≡ true → (if b then trim_start s else c ∷ s) ≡ c ∷ s
    go false e = refl
    go true e = ground arith

trim_end-spaceless : (s : Text) → is_spaceless s ≡ true → trim_end s ≡ s
unfolding trim_end
trim_end-spaceless [] h = refl
trim_end-spaceless (c ∷ s) h =
    let (full, more) = &&_true (not (is_space c)) (is_spaceless s) h in
    rw (trim_end-spaceless s more) (go (is_space c) s full)
  where
    go :
        (b : Bool) (t : Text)
        → not b ≡ true
        → (elim t [ [] ↦ if b then [] else c ∷ [] | d ∷ u ↦ c ∷ d ∷ u ]) ≡ c ∷ t
    go false [] e = refl
    go true [] e = ground arith
    go b (d ∷ u) e = refl

pub trim-spaceless : (s : Text) → is_spaceless s ≡ true → trim s ≡ s
unfolding trim
trim-spaceless s h = ap trim_end (trim_start-spaceless s h) ∙ trim_end-spaceless s h
