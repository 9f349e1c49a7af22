-- ===== src/Auth/Login.antt =====
-- apps/ui/src/pages/LoginPage.tsx: the sign-in form and the way back.
use mantis_dns.Base.{
  Bool, true, false, not, ◌&&◌, ◌||◌, Option, none, some, [], ◌∷◌, ◌≡◌, refl, arith, if◌then◌else◌,
  ◌==◌, Bool-cases, inl, inr,
}
use mantis_dns.Base.Text.{Text, codes, starts_with, is_empty}
use mantis_dns.Auth.Roles.{AuthUser}
use mantis_dns.Auth.Session.{Session, to_login, require_auth}

-- `safeFrom()`, over `location.state?.from`.
unfoldable pub safe_from : Option Text → Text
safe_from none = codes "/tenants"
safe_from (some raw) =
    if is_empty raw || not (starts_with raw (codes "/")) || starts_with raw (codes "//")
    then codes "/tenants"
    else raw

pub record LoginForm : Type 0 where
  pub error : Option Text
  pub submitting : Bool

-- What the page renders: a redirect for a user who is signed in, else the form.
pub data LoginView : Type 0 where
  redirect : Text → LoginView
  form : LoginForm → LoginView

unfoldable pub login_page : Option Text → Session → LoginForm → LoginView
unfolding safe_from
login_page from s f =
    if s.loading then form f else elim s.user [ none ↦ form f | some u ↦ redirect (safe_from from) ]

-- `handleSubmit` up to `await login(…)`, and after it: with the page to go to, or the error.
unfoldable submit_started : LoginForm → LoginForm
submit_started f = record { error = none; submitting = true }

unfoldable submit_settled : Option Text → Option Text → LoginForm → LoginForm × Option Text
unfolding safe_from
submit_settled from none f = (record f { submitting = false }, some (safe_from from))
submit_settled from (some message) f = (record { error = some message; submitting = false }, none)

-- A path inside the application: one slash in front.
abbrev pub IsLocal : Text → Type 0
IsLocal t = (starts_with t (codes "/") ≡ true) × (starts_with t (codes "//") ≡ false)

safe_from-none : IsLocal (safe_from none)
unfolding safe_from
safe_from-none = (refl, refl)

safe_from-some : (raw : Text) → IsLocal (safe_from (some raw))
unfolding safe_from
safe_from-some [] = (refl, refl)
safe_from-some (c ∷ raw) = elim (Bool-cases (c == b'/' && not (starts_with raw (codes "/")))) [
  | inl good ↦ ground arith
  | inr bad ↦ ground arith
]

safe_from-keeps : (raw : Text) → IsLocal raw → safe_from (some raw) ≡ raw
unfolding safe_from
safe_from-keeps [] l = ground arith
safe_from-keeps (c ∷ raw) l = ground arith

-- Whatever `from` holds, the page goes to a path inside the application, and a `from` of that form is
-- where it goes.
pub safe_from-IsLocal :
    (from : Option Text) (raw : Text)
    → IsLocal (safe_from from) × (IsLocal raw → safe_from (some raw) ≡ raw)
safe_from-IsLocal none raw = (safe_from-none, safe_from-keeps raw)
safe_from-IsLocal (some t) raw = (safe_from-some t, safe_from-keeps raw)

-- A protected page at a path inside the application, from which a user was sent to sign in, is
-- where the sign-in page sends the user who is then signed in.
pub login_page-require_auth :
    (pathname : Text) (expired signed_in : Session) (from : Text) (u : AuthUser) (f : LoginForm)
    → IsLocal pathname
    → require_auth pathname expired ≡ to_login from
    → signed_in.user ≡ some u
    → signed_in.loading ≡ false
    → login_page (some from) signed_in f ≡ redirect pathname
unfolding login_page require_auth
login_page-require_auth pathname expired signed_in from u f l e h k =
    ground (arith, safe_from-keeps pathname l)
