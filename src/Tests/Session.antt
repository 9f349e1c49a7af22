-- ===== src/Tests/Session.antt =====
-- The session, the roles and the sign-in page at concrete inputs.
use mantis_dns.Base.{true, false, none, some, [], ◌∷◌, ◌≡◌, refl, if◌then◌else◌}
use mantis_dns.Base.Text.{codes}
use mantis_dns.Auth.Session.{
  Session, Me, start, mount, me, login, unauthorized, step, run, require_auth, loader, to_login,
  outlet,
}
use mantis_dns.Auth.Session.Laws.{
  run-unauthorized, Delivered, me_settled, require_auth-Delivered, login-me,
}
use mantis_dns.Auth.Login.{
  LoginForm, login_page, redirect, safe_from, IsLocal, safe_from-IsLocal, login_page-require_auth,
}
use mantis_dns.Tests.Fixtures.{alice}

-- An answer with the user, and the one to a request without a session.
abbrev named : Me
named = record { error = false; found = some alice }

abbrev nobody : Me
nobody = record { error = true; found = none }

at_sign_in : (run (mount ∷ []) start).mounted ≡ some 0
unfolding run start
at_sign_in = refl

mounted : (run (mount ∷ me 0 named ∷ []) start).mounted ≡ some 0
unfolding run start
mounted = refl

rendered : require_auth (codes "/zones") (run (mount ∷ me 0 named ∷ []) start) ≡ outlet alice
unfolding run start require_auth
rendered = refl

run-unauthorized_example :
    let s = step unauthorized (run (mount ∷ me 0 named ∷ []) start) in
    (s.user ≡ none)
    × (require_auth (codes "/zones") s ≡ (
        if (run (mount ∷ me 0 named ∷ []) start).loading
        then loader
        else to_login (codes "/zones")))
run-unauthorized_example = run-unauthorized (mount ∷ me 0 named ∷ []) 0 (codes "/zones") mounted

require_auth-Delivered_example :
    Delivered alice (mount ∷ me 0 named ∷ []) × (me_settled (mount ∷ me 0 named ∷ []) ≡ true)
require_auth-Delivered_example =
    require_auth-Delivered (mount ∷ me 0 named ∷ []) (codes "/zones") alice rendered

login-me_example :
    let s = run (mount ∷ []) start in
    ((step (login 0 alice) s).user ≡ some alice)
    × (require_auth (codes "/zones") (step (me 0 nobody) (step (login 0 alice) s))
        ≡ to_login (codes "/zones"))
    × (require_auth (codes "/zones") (step (login 0 alice) (step (me 0 nobody) s)) ≡ outlet alice)
login-me_example = login-me (mount ∷ []) 0 alice nobody (codes "/zones") at_sign_in refl

safe_from-IsLocal_example :
    IsLocal (safe_from (some (codes "//evil.example")))
    × (IsLocal (codes "/zones") → safe_from (some (codes "/zones")) ≡ codes "/zones")
safe_from-IsLocal_example = safe_from-IsLocal (some (codes "//evil.example")) (codes "/zones")

abbrev signed_out : Session
signed_out = record {
  listener = some 0;
  mounted = some 0;
  mounts = 1;
  user = none;
  loading = false;
}

abbrev signed_in : Session
signed_in = record {
  listener = some 0;
  mounted = some 0;
  mounts = 1;
  user = some alice;
  loading = false;
}

abbrev blank : LoginForm
blank = record { error = none; submitting = false }

login_page-require_auth_example :
    login_page (some (codes "/zones")) signed_in blank ≡ redirect (codes "/zones")
unfolding require_auth
login_page-require_auth_example =
    login_page-require_auth (codes "/zones") signed_out signed_in (codes "/zones") alice blank
      (refl, refl) refl refl refl
