-- ===== src/Auth/Roles.antt =====
-- apps/ui/src/auth/AuthContext.tsx: roles, and `hasRole`.
use mantis_dns.Base.{
  ℕ, String, Bool, true, false, Option, none, some, List, [], ◌∷◌, ◌≡◌, refl, arith, leb,
  if◌then◌else◌, all,
}

pub data Role : Type 0 where
  admin operator viewer : Role

pub record AuthUser : Type 0 where
  pub id : String
  pub email : String
  pub role : Role
  pub tenant_id : Option String

-- `ROLE_RANK`.
unfoldable pub role_rank : Role → ℕ
role_rank viewer = 0
role_rank operator = 1
role_rank admin = 2

abbrev max_of : ℕ → ℕ → ℕ
max_of a b = if leb a b then b else a

-- `Math.max(...roles.map((r) => ROLE_RANK[r]))`; `none` is the -Infinity of no role at all.
unfoldable min_rank : List Role → Option ℕ
unfolding role_rank
min_rank [] = none
min_rank (r ∷ rs) = elim (min_rank rs) [
  | none ↦ some (role_rank r)
  | some m ↦ some (max_of (role_rank r) m)
]

abbrev at_least : ℕ → Option ℕ → Bool
at_least rank none = true
at_least rank (some m) = leb m rank

-- `hasRole(...roles)` for the user of the context.
unfoldable pub has_role : Option AuthUser → List Role → Bool
unfolding role_rank min_rank
has_role none roles = false
has_role (some user) roles = at_least (role_rank user.role) (min_rank roles)

min_rank-all :
    (k : ℕ) (rs : List Role) → at_least k (min_rank rs) ≡ all (λ r. leb (role_rank r) k) rs
unfolding min_rank
min_rank-all k [] = refl
min_rank-all k (r ∷ rs) = ground (arith, min_rank-all k rs)

-- A signed-in user has a list of roles exactly when the user's rank reaches that of every role in it:
-- several roles ask for the highest one, not for any one of them.
pub has_role-all :
    (u : AuthUser) (rs : List Role)
    → has_role (some u) rs ≡ all (λ r. leb (role_rank r) (role_rank u.role)) rs
unfolding has_role
has_role-all u rs = min_rank-all (role_rank u.role) rs
