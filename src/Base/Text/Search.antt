-- ===== src/Base/Text/Search.antt =====
-- `includes` and `toLowerCase` together.
use mathlib.Core.Path.{◌≡◌, refl}
use mathlib.Core.Bool.{Bool, true, false, ◌&&◌}
use mathlib.Core.List.{[], ◌∷◌}
use Prim.Native.Nat.{ℕ, ◌<◌}
use native.Mathlib.Omega.{arith}
use mantis_dns.Base.Tests.{leb}
use mantis_dns.Base.Lists.{any, length}
use mantis_dns.Base.Text.{Text, starts_with, includes, to_lower, lower}

abbrev pub is_upper : ℕ → Bool
is_upper c = leb b'A' c && leb c b'Z'

length-lower : (s : Text) → length (lower s) ≡ length s
unfolding lower
length-lower [] = refl
length-lower (c ∷ s) = ground (arith, length-lower s)

starts_with-long : (s q : Text) → length s < length q → starts_with s q ≡ false
starts_with-long s [] h = absurd (omega arith)
starts_with-long [] (d ∷ q) h = refl
starts_with-long (c ∷ s) (d ∷ q) h = ground (arith, starts_with-long s q)

includes-long : (s q : Text) → length s < length q → includes s q ≡ false
includes-long [] [] h = absurd (omega arith)
includes-long [] (d ∷ q) h = refl
includes-long (c ∷ s) q h = ground (arith, starts_with-long (c ∷ s) q, includes-long s q)

starts_with-lower : (s : Text) → any is_upper s ≡ true → starts_with s (lower s) ≡ false
unfolding lower to_lower
starts_with-lower [] h = absurd (ground arith)
starts_with-lower (c ∷ s) h = ground (arith, starts_with-lower s)

-- A text with a capital letter is not found by its lower-case form.
pub includes-lower : (s : Text) → any is_upper s ≡ true → includes s (lower s) ≡ false
includes-lower [] h = absurd (ground arith)
includes-lower (c ∷ s) h =
    ground
      (arith, starts_with-lower (c ∷ s) h, length-lower (c ∷ s), includes-long s (lower (c ∷ s)))
