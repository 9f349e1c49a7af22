-- ===== src/Auth/Session/Laws.antt =====
-- Any history of mounts, answers, logins and expired sessions.
use mantis_dns.Base.{
  ℕ, ◌+◌, ◌==◌, Bool, true, ◌||◌, false, none, some, List, [], ◌∷◌, ◌≡◌, refl, ◌⊎◌, inl, inr, arith,
  if◌then◌else◌,
}
use mantis_dns.Base.Text.{Text}
use mantis_dns.Auth.Roles.{AuthUser}
use mantis_dns.Auth.Session.{
  Session, Me, user_of, start, Event, mount, me, me_rejected, login, unauthorized, step, run,
  require_auth, loader, to_login, outlet,
}

-- The listener is the callback of the mounted provider.
abbrev IsConnected : Session → Type 0
IsConnected s = s.listener ≡ s.mounted

step-IsConnected : (e : Event) (s : Session) → IsConnected s → IsConnected (step e s)
unfolding step
step-IsConnected mount s h = refl
step-IsConnected e s h = ground arith

run-IsConnected : (es : List Event) (s : Session) → IsConnected s → IsConnected (run es s)
unfolding run
run-IsConnected [] s h = h
run-IsConnected (e ∷ es) s h = run-IsConnected es (step e s) (step-IsConnected e s h)

start-IsConnected : IsConnected start
unfolding start
start-IsConnected = refl

-- After any history, while a provider is mounted, an expired session clears the user, and a protected
-- page then leads to the sign-in page with its own path as the way back, or still shows the loader.
pub run-unauthorized :
    (es : List Event) (m : ℕ) (pathname : Text)
    → (run es start).mounted ≡ some m
    → let s = step unauthorized (run es start) in
      (s.user ≡ none)
      × (require_auth pathname s ≡ (if (run es start).loading then loader else to_login pathname))
unfolding step require_auth
run-unauthorized es m pathname h = ground (arith, run-IsConnected es start start-IsConnected)

-- The server has named this user, in an answer to `me` that is no error, or to `login`.
abbrev pub Delivered : AuthUser → List Event → Type 0
Delivered u [] = ⊥
Delivered u (me _ r ∷ es) = (user_of r ≡ some u) ⊎ Delivered u es
Delivered u (login _ v ∷ es) = (u ≡ v) ⊎ Delivered u es
Delivered u (e ∷ es) = Delivered u es

Delivered-cons :
    (e : Event) (es : List Event) (u : AuthUser) → Delivered u es → Delivered u (e ∷ es)
Delivered-cons (me id r) es u d = inr d
Delivered-cons (login id v) es u d = inr d
Delivered-cons e es u d = d

-- A step gives its user, or keeps the one that there was, or has none.
step-user :
    (e : Event) (s : Session) (u : AuthUser) (es : List Event)
    → (step e s).user ≡ some u
    → (s.user ≡ some u) ⊎ Delivered u (e ∷ es)
unfolding step
step-user (me id r) s u es h = ground arith
step-user (login id v) s u es h = ground arith
step-user e s u es h = ground arith

run-user :
    (es : List Event) (s : Session) (u : AuthUser)
    → (run es s).user ≡ some u
    → (s.user ≡ some u) ⊎ Delivered u es
unfolding run
run-user [] s u h = inl h
run-user (e ∷ es) s u h = elim (run-user es (step e s) u h) [
  | inl now ↦ step-user e s u es now
  | inr later ↦ inr (Delivered-cons e es u later)
]

outlet-user :
    (pathname : Text) (s : Session) (u : AuthUser)
    → require_auth pathname s ≡ outlet u
    → (s.user ≡ some u) × (s.loading ≡ false)
unfolding require_auth
outlet-user pathname s u h = ground arith

fresh-Delivered : (es : List Event) (u : AuthUser) → (run es start).user ≡ some u → Delivered u es
unfolding start
fresh-Delivered es u h = elim (run-user es start u h) [ inl e ↦ absurd (cc) | inr d ↦ d ]

-- Read off the history, with the number of mounts so far and what holds so far: since the last mount,
-- the request for `me` of that mount has come back or has been rejected.
abbrev pub settled_since : ℕ → Bool → List Event → Bool
settled_since mounts settled [] = settled
settled_since mounts settled (mount ∷ es) = settled_since (mounts + 1) false es
settled_since mounts settled (me id r ∷ es) = settled_since mounts (settled || id + 1 == mounts) es
settled_since mounts settled (me_rejected id ∷ es) =
    settled_since mounts (settled || id + 1 == mounts) es
settled_since mounts settled (e ∷ es) = settled_since mounts settled es

abbrev pub me_settled : List Event → Bool
me_settled es = settled_since 0 false es

-- Without the loader, the request of the mounted provider has settled; the last provider is the one
-- that is mounted, if any.
abbrev IsAsked : ℕ → Bool → Session → Type 0
IsAsked mounts settled s =
    (s.mounts ≡ mounts)
    × ((m : ℕ) → s.mounted ≡ some m → m + 1 ≡ mounts)
    × (s.loading ≡ false → settled ≡ true)

run-IsAsked :
    (es : List Event) (mounts : ℕ) (settled : Bool) (s : Session)
    → IsAsked mounts settled s
    → (run es s).loading ≡ false
    → settled_since mounts settled es ≡ true
unfolding run step
run-IsAsked [] mounts settled s (n, last, ok) h = ok h
run-IsAsked (mount ∷ es) mounts settled s (n, last, ok) h =
    run-IsAsked es (mounts + 1) false (step mount s)
      (ground arith, λ m e. ground arith, λ e. ground arith) h
run-IsAsked (me id r ∷ es) mounts settled s (n, last, ok) h =
    run-IsAsked es mounts (settled || id + 1 == mounts) (step (me id r) s)
      (ground arith, λ m e. ground (arith, last m), λ e. ground (arith, last id)) h
run-IsAsked (me_rejected id ∷ es) mounts settled s (n, last, ok) h =
    run-IsAsked es mounts (settled || id + 1 == mounts) (step (me_rejected id) s)
      (ground arith, λ m e. ground (arith, last m), λ e. ground (arith, last id)) h
run-IsAsked (e ∷ es) mounts settled s (n, last, ok) h =
    run-IsAsked es mounts settled (step e s)
      (ground arith, λ m k. ground (arith, last m), λ k. ground arith) h

-- A protected page is rendered only for a user that the server has named in the history, in an answer
-- to `me` or to `login`, and only when the request for `me` of the last mount has come back or has been
-- rejected.
pub require_auth-Delivered :
    (es : List Event) (pathname : Text) (u : AuthUser)
    → require_auth pathname (run es start) ≡ outlet u
    → Delivered u es × (me_settled es ≡ true)
unfolding start
require_auth-Delivered es pathname u h =
    let (named, settled) = outlet-user pathname (run es start) u h in
    (
      fresh-Delivered es u named,
      run-IsAsked es 0 false start (refl, λ m e. absurd (cc), λ e. absurd (cc)) settled,
    )

-- After any history that has a provider mounted, an answer to its `me` without a user that comes after
-- its login signs the user out again, on every protected page; where the same answer comes before the
-- login, the page is rendered for the user. After the login alone the user is set.
pub login-me :
    (es : List Event) (m : ℕ) (u : AuthUser) (r : Me) (pathname : Text)
    → (run es start).mounted ≡ some m
    → user_of r ≡ none
    → let s = run es start in
      ((step (login m u) s).user ≡ some u)
      × (require_auth pathname (step (me m r) (step (login m u) s)) ≡ to_login pathname)
      × (require_auth pathname (step (login m u) (step (me m r) s)) ≡ outlet u)
unfolding step require_auth
login-me es m u r pathname h k = ground arith
