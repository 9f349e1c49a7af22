-- ===== src/Base/Text/Decimal.antt =====
-- Numbers in decimal: `Number(s)`, and what `String(n)` looks like.
use mathlib.Core.Logic.{inl, inr}
use mantis_dns.Base.Tests.{Bool-cases, ltb, if◌then◌else◌}
use Prim.Native.Nat.{ℕ, zero, suc, ◌+◌, ◌-◌, ◌*◌, ◌/◌, ◌%◌, ◌≤◌, ◌<◌}
use mathlib.Core.Path.{◌≡◌, refl, ◌∙◌, ap, sym}
use mathlib.Core.Bool.{false}
use mathlib.Core.Option.{Option, none, some}
use mathlib.Core.List.{[], ◌∷◌, ◌++◌, append_assoc, append-nil}
use native.Mathlib.Omega.{arith}
use mantis_dns.Base.Text.{Text, digits, show, is_digit, is_empty}

digits_one : (k n : ℕ) → n < 10 → digits (suc k) n ≡ (b'0' + n) ∷ []
unfolding digits
digits_one k n h = ground arith

digits_two :
    (k n : ℕ) → 10 ≤ n → n < 100 → digits (suc (suc k)) n ≡ (b'0' + n / 10) ∷ (b'0' + n % 10) ∷ []
unfolding digits
digits_two k n h l = ground (arith, digits_one k (n / 10))

digits_three :
    (k n : ℕ)
    → 100 ≤ n
    → n < 1000
    → digits (suc (suc (suc k))) n ≡ (b'0' + n / 100) ∷ (b'0' + n / 10 % 10) ∷ (b'0' + n % 10) ∷ []
unfolding digits
digits_three k n h l = ground (arith, digits_two k (n / 10))

pub show_three :
    (n : ℕ)
    → 100 ≤ n
    → n < 1000
    → show n ≡ (b'0' + n / 100) ∷ (b'0' + n / 10 % 10) ∷ (b'0' + n % 10) ∷ []
unfolding show
show_three n h l =
    let e : suc n ≡ suc (suc (suc (n - 2))) = omega arith in
    ap (λ (f : ℕ). digits f n) e ∙ digits_three (n - 2) n h l

-- The number that a text of digits continues.
unfoldable continue_number : ℕ → Text → Option ℕ
continue_number n [] = some n
continue_number n (c ∷ s) =
    let rest = continue_number (n * 10 + (c - b'0')) s in if is_digit c then rest else none

-- `Number(s)` on decimal digits; every other text is `none`.
unfoldable pub number : Text → Option ℕ
unfolding continue_number
number s = continue_number 0 s

last_digit :
    (n : ℕ) (s : Text) → continue_number (n / 10) ((b'0' + n % 10) ∷ s) ≡ continue_number n s
unfolding continue_number
last_digit n s =
    let e : n / 10 * 10 + (b'0' + n % 10 - b'0') ≡ n = omega arith in rw (e) (ground arith)

digits_more :
    (fuel n : ℕ) (s : Text)
    → ltb n 10 ≡ false
    → digits (suc fuel) n ++ s ≡ digits fuel (n / 10) ++ ((b'0' + n % 10) ∷ s)
unfolding digits
digits_more fuel n s e = rw (e) (append_assoc (digits fuel (n / 10)) ((b'0' + n % 10) ∷ []) s)

continue_number-digits :
    (fuel n : ℕ) (s : Text)
    → n < fuel
    → continue_number 0 (digits fuel n ++ s) ≡ continue_number n s
unfolding continue_number digits
continue_number-digits zero n s h = ground arith
continue_number-digits (suc fuel) n s h = elim (Bool-cases (ltb n 10)) [
  | inl e ↦ ground arith
  | inr e ↦
      ap (continue_number 0) (digits_more fuel n s e)
      ∙ continue_number-digits fuel (n / 10) ((b'0' + n % 10) ∷ s) (ground arith)
      ∙ last_digit n s
]

-- A number that is written reads back.
pub number-show : (n : ℕ) → number (show n) ≡ some n
unfolding number show
number-show n =
    ap (continue_number 0) (sym (append-nil (digits (suc n) n)))
    ∙ continue_number-digits (suc n) n [] (omega arith)

append_full : (s : Text) (c : ℕ) → is_empty (s ++ c ∷ []) ≡ false
append_full [] c = refl
append_full (d ∷ s) c = refl

-- A number that is written is not empty.
pub is_empty-show : (n : ℕ) → is_empty (show n) ≡ false
unfolding show digits
is_empty-show n = elim (Bool-cases (ltb n 10)) [
  | inl e ↦ rw (e) refl
  | inr e ↦ rw (e) (append_full (digits n (n / 10)) (b'0' + n % 10))
]
