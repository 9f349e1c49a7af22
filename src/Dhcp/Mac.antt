-- ===== src/Dhcp/Mac.antt =====
-- apps/ui/src/pages/dhcp/helpers.ts: `normalizeMac`.
use mantis_dns.Base.{
  ℕ, zero, suc, ◌+◌, ◌*◌, Bool, true, false, not, ◌&&◌, ◌||◌, Option, none, some, List, [], ◌∷◌,
  map, all, keep_if, length, if◌then◌else◌, ◌==◌, leb, ◌≡◌, refl, ◌∙◌, ap, sym, ◌↔◌, ◌≤◌, arith,
  ==_iff, &&_true,
}
use mantis_dns.Base.Text.{Text, is_digit, to_lower, join}

abbrev not_separator : ℕ → Bool
not_separator c = not (c == b':' || c == b'-')

-- `raw.replace(/[:-]/g, "").toLowerCase()`. A code unit outside ASCII never becomes a hexadecimal digit.
unfoldable pub hex_of : Text → Text
unfolding to_lower
hex_of raw = map to_lower (keep_if not_separator raw)

-- `[0-9a-f]`.
abbrev is_hex : ℕ → Bool
is_hex c = is_digit c || (leb b'a' c && leb c b'f')

-- `hex.match(/.{2}/g)`.
abbrev pub pairs : Text → List Text
pairs [] = []
pairs (a ∷ []) = []
pairs (a ∷ b ∷ s) = (a ∷ b ∷ []) ∷ pairs s

unfoldable pub normalize_mac : Text → Option Text
unfolding hex_of join
normalize_mac raw =
    if all is_hex (hex_of raw) && length (hex_of raw) == 12
    then some (join (b':' ∷ []) (pairs (hex_of raw)))
    else none

abbrev is_even : Text → Bool
is_even [] = true
is_even (a ∷ []) = false
is_even (a ∷ b ∷ s) = is_even s

is_even-length : (s : Text) (k : ℕ) → length s ≡ k + k → is_even s ≡ true
is_even-length [] k h = refl
is_even-length (a ∷ []) k h = absurd (omega arith)
is_even-length (a ∷ b ∷ s) zero h = ground arith
is_even-length (a ∷ b ∷ s) (suc k) h = is_even-length s k (omega arith)

hex_of_hex : (c : ℕ) (s : Text) → is_hex c ≡ true → hex_of (c ∷ s) ≡ c ∷ hex_of s
unfolding hex_of to_lower
hex_of_hex c s h = ground arith

hex_of_colon : (s : Text) → hex_of (b':' ∷ s) ≡ hex_of s
unfolding hex_of
hex_of_colon s = refl

-- The pairs joined have the digits that they were made of.
hex_of-join :
    (s : Text) → all is_hex s ≡ true → is_even s ≡ true → hex_of (join (b':' ∷ []) (pairs s)) ≡ s
unfolding hex_of join
hex_of-join [] h e = refl
hex_of-join (a ∷ []) h e = ground arith
hex_of-join (a ∷ b ∷ []) h e = ground (arith, hex_of_hex a (b ∷ []), hex_of_hex b [])
hex_of-join (a ∷ b ∷ c ∷ []) h e = ground arith
hex_of-join (a ∷ b ∷ c ∷ d ∷ s) h e =
    let rest = join (b':' ∷ []) (pairs (c ∷ d ∷ s)) in
    let (ha, h') = &&_true (is_hex a) (all is_hex (b ∷ c ∷ d ∷ s)) h in
    let (hb, h'') = &&_true (is_hex b) (all is_hex (c ∷ d ∷ s)) h' in
    hex_of_hex a (b ∷ b':' ∷ rest) ha
    ∙ ap (◌∷◌ a) (hex_of_hex b (b':' ∷ rest) hb ∙ ap (◌∷◌ b) (hex_of-join (c ∷ d ∷ s) h'' e))

length-join-pairs :
    (s : Text)
    → is_even s ≡ true
    → 2 ≤ length s
    → length (join (b':' ∷ []) (pairs s)) * 2 + 2 ≡ length s * 3
unfolding join
length-join-pairs [] e l = ground arith
length-join-pairs (a ∷ []) e l = ground arith
length-join-pairs (a ∷ b ∷ []) e l = omega arith
length-join-pairs (a ∷ b ∷ c ∷ []) e l = ground arith
length-join-pairs (a ∷ b ∷ c ∷ d ∷ s) e l =
    omega (arith, length-join-pairs (c ∷ d ∷ s) e (omega arith))

-- What the guard of `normalizeMac` ensures.
normalize_mac_accepts :
    (raw : Text)
    → all is_hex (hex_of raw) ≡ true
    → length (hex_of raw) ≡ 12
    → normalize_mac raw ≡ some (join (b':' ∷ []) (pairs (hex_of raw)))
unfolding normalize_mac
normalize_mac_accepts raw h l = rw (h, l) refl

guard-some : (b : Bool) (x t : Text) → (if b then some x else none) ≡ some t → (b ≡ true) × (x ≡ t)
guard-some true x t h = (refl, ground arith)
guard-some false x t h = ground arith

normalize_mac_inverse :
    (raw t : Text)
    → normalize_mac raw ≡ some t
    → (all is_hex (hex_of raw) ≡ true)
      × (length (hex_of raw) ≡ 12)
      × (join (b':' ∷ []) (pairs (hex_of raw)) ≡ t)
unfolding normalize_mac
normalize_mac_inverse raw t h =
    let (guarded, joined) =
      guard-some (all is_hex (hex_of raw) && length (hex_of raw) == 12)
        (join (b':' ∷ []) (pairs (hex_of raw))) t h in
    let (digits, twelve) = &&_true (all is_hex (hex_of raw)) (length (hex_of raw) == 12) guarded in
    (digits, (==_iff (length (hex_of raw)) 12).0 twelve, joined)

-- A text is accepted exactly when it has twelve hexadecimal digits beside colons and dashes, in either
-- case.
normalize_mac-accepted :
    (raw : Text)
    → ((t : Text) × (normalize_mac raw ≡ some t))
      ↔ ((all is_hex (hex_of raw) ≡ true) × (length (hex_of raw) ≡ 12))
normalize_mac-accepted raw = (
  λ (t, h). let (a, b, c) = normalize_mac_inverse raw t h in (a, b),
  λ (a, b). (join (b':' ∷ []) (pairs (hex_of raw)), normalize_mac_accepts raw a b),
)

-- An address that is returned has the digits that were typed, in lower case, takes seventeen characters,
-- and is returned as it is when it is normalised again.
pub normalize_mac-normal :
    (raw t : Text)
    → normalize_mac raw ≡ some t
    → (hex_of t ≡ hex_of raw) × (length t ≡ 17) × (normalize_mac t ≡ some t)
normalize_mac-normal raw t h =
    let (digits, twelve, joined) = normalize_mac_inverse raw t h in
    let even = is_even-length (hex_of raw) 6 twelve in
    let same : hex_of t ≡ hex_of raw =
      ap hex_of (sym joined) ∙ hex_of-join (hex_of raw) digits even in
    let long : length t ≡ 17 =
      ap length (sym joined) ∙ omega (arith, length-join-pairs (hex_of raw) even (omega arith)) in
    (
      same,
      long,
      normalize_mac_accepts t (ap (all is_hex) same ∙ digits) (ap length same ∙ twelve)
          ∙ ap (λ (s : Text). some (join (b':' ∷ []) (pairs s))) same
          ∙ ap some joined,
    )
