-- ===== src/Auth/Session.antt =====
-- apps/ui/src/auth/sessionEvents.ts, AuthContext.tsx and RequireAuth.tsx: the module-level listener, the
-- state of `AuthProvider`, and what a protected route renders. The second run of each effect that
-- React's StrictMode makes in development is left out.
pub mod Laws
use mantis_dns.Base.{
  ℕ, ◌+◌, Bool, true, false, ◌||◌, Option, none, some, List, [], ◌∷◌, if◌then◌else◌, ◌==◌,
}
use mantis_dns.Base.Text.{Text}
use mantis_dns.Auth.Roles.{AuthUser}

-- The page's state: the `listener` of sessionEvents.ts, which names a provider by the number of its
-- mount, the providers' mounts so far, and `user` and `loading` of the mounted provider.
pub record Session : Type 0 where
  pub listener : Option ℕ
  pub mounted : Option ℕ
  pub mounts : ℕ
  pub user : Option AuthUser
  pub loading : Bool

unfoldable pub start : Session
start = record { listener = none; mounted = none; mounts = 0; user = none; loading = true }

-- `onSessionExpired(cb)`.
unfoldable on_session_expired : ℕ → Session → Session
on_session_expired cb s = record s { listener = some cb }

-- The function that it returns: `if (listener === cb) listener = null`.
unfoldable unsubscribe : ℕ → Session → Session
unsubscribe cb s = elim s.listener [
  | none ↦ s
  | some l ↦ if l == cb then record s { listener = none } else s
]

-- A provider's `setUser` and `setLoading` do nothing once it is unmounted.
abbrev set_user : ℕ → Option AuthUser → Session → Session
set_user id u s = elim s.mounted [
  | none ↦ s
  | some m ↦ if m == id then record s { user = u } else s
]

abbrev set_loading : ℕ → Bool → Session → Session
set_loading id b s = elim s.mounted [
  | none ↦ s
  | some m ↦ if m == id then record s { loading = b } else s
]

-- `notifySessionExpired()`: the callback of a provider is `() => setUser(null)`.
unfoldable notify_session_expired : Session → Session
notify_session_expired s = elim s.listener [ none ↦ s | some cb ↦ set_user cb none s ]

-- An answer of the typed client to GET /api/v1/auth/me: whether `error` is set, and `data`.
pub record Me : Type 0 where
  pub error : Bool
  pub found : Option AuthUser

-- `res.error || !res.data ? null : res.data`.
abbrev pub user_of : Me → Option AuthUser
user_of r = if r.error then none else r.found

unfoldable me_answered : ℕ → Me → Session → Session
me_answered id r s = set_loading id false (set_user id (user_of r) s)

pub data Event : Type 0 where
  -- `AuthProvider` mounts: its state is fresh and its effects run.
  mount : Event
  -- A provider is removed, perhaps after another has mounted: the clean-up of its effect runs.
  unmount : ℕ → Event
  -- The answer to GET /api/v1/auth/me that a provider asked for, or an exception.
  me : ℕ → Me → Event
  me_rejected : ℕ → Event
  -- A provider's `login` with the user that the server returns, or thrown out by `unwrap`.
  login : ℕ → AuthUser → Event
  login_failed : ℕ → Event
  -- A provider's `logout`: the request came back, or was rejected.
  logout logout_rejected : ℕ → Event
  -- An exchange of client.ts that reports the session as expired.
  unauthorized : Event

abbrev detach : ℕ → Session → Session
detach id s = elim s.mounted [
  | none ↦ s
  | some m ↦ if m == id then record s { mounted = none } else s
]

-- One callback or effect of `AuthProvider` or client.ts.
unfoldable pub step : Event → Session → Session
unfolding on_session_expired unsubscribe notify_session_expired me_answered
step mount s =
    on_session_expired s.mounts
      (record s { mounted = some s.mounts; mounts = s.mounts + 1; user = none; loading = true })
step (unmount id) s = detach id (unsubscribe id s)
step (me id r) s = me_answered id r s
step (me_rejected id) s = set_loading id false s
step (login id u) s = set_user id (some u) s
step (login_failed id) s = s
step (logout id) s = set_user id none s
step (logout_rejected id) s = s
step unauthorized s = notify_session_expired s

unfoldable pub run : List Event → Session → Session
unfolding step
run [] s = s
run (e ∷ es) s = run es (step e s)

-- What `RequireAuth` renders on a page.
pub data Guarded : Type 0 where
  loader : Guarded
  -- `<Navigate to="/login" state={{ from }} replace />`.
  to_login : Text → Guarded
  outlet : AuthUser → Guarded

unfoldable pub require_auth : Text → Session → Guarded
require_auth pathname s =
    if s.loading then loader else elim s.user [ none ↦ to_login pathname | some u ↦ outlet u ]
