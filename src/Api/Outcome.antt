-- ===== src/Api/Outcome.antt =====
-- Results of the functions of apps/ui/src/api/client.ts that may throw.
use mantis_dns.Base.{Bool, true, false}
use mantis_dns.Base.Text.{Text}

-- A value, or a thrown error with its message.
pub data Outcome (A : Type 0) : Type 0 where
  value : A → Outcome A
  thrown : Text → Outcome A

infixl 5 ◌>>=◌
abbrev pub ◌>>=◌ : {A B : Type 0} → Outcome A → (A → Outcome B) → Outcome B
◌>>=◌ (value a) f = f a
◌>>=◌ (thrown e) f = thrown e

abbrev pub is_value : {A : Type 0} → Outcome A → Bool
is_value (value a) = true
is_value (thrown e) = false
