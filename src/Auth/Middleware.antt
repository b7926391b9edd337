-- ===== src/Auth/Middleware.antt =====
-- internal/auth/middleware.go: who the caller is, and the gates of a route. The logging is left out.
use cellarkeep_server.Prelude.{
  ℕ, ◌+◌, ◌*◌, ◌/◌, String, Bool, not, ◌&&◌, ◌||◌, none, some, nat_eq, string_eq, ◌==◌, ltb,
  if◌then◌else◌,
}
use cellarkeep_server.Prelude.Text.{has_prefix, trim_prefix}
use cellarkeep_server.Store.Model.{Time}
use cellarkeep_server.Store.Action.{Result, ok, err}
use cellarkeep_server.Http.{
  Request, Response, Cookie, set_session_cookie, Principal, user, device, Handler, problem,
  with_cookie, from_context,
}

-- 30 * 24 * time.Hour, in microseconds
abbrev pub session_ttl : Time
session_ttl = 30 * 24 * 3600 * 1000000

pub record Config : Type 0 where
  pub client_origin : String
  pub insecure : Bool

-- SessionLookup, DeviceLookup and time.Now over a server state.
pub record Lookups (S : Type 0) : Type 0 where
  pub principal : String → S → Result (Principal × Time) × S
  pub principal_for_token : String → S → Result Principal × S
  pub now : S → Time × S

-- unsafe
unfoldable pub is_unsafe : String → Bool
is_unsafe m = m == "POST" || m == "PUT" || m == "PATCH" || m == "DELETE"

module _ {S A : Type 0} where
  abbrev pub refuse : ℕ → String → S → Response A × S
  refuse status title s = (problem status title "", s)

  abbrev pub and_cookie : Cookie → Response A × S → Response A × S
  and_cookie c (r, s) = (with_cookie c r, s)

  -- A bearer token: the principal of the device, or 401.
  unfoldable pub by_token : Lookups S → Handler S A → Request → S → Response A × S
  by_token look next r s =
      let (res, s') = look.principal_for_token (trim_prefix r.authorization "Bearer ") s in
      elim res [ err e ↦ refuse 401 "invalid device token" s' | ok p ↦ next (some p) r s' ]

  -- A session whose principal was found: the origin rule, then the sliding renewal of the cookie.
  unfoldable pub with_session :
      Config → Lookups S → Handler S A → Request → String → Principal → Time → S → Response A × S
  unfolding is_unsafe
  with_session cfg look next r id p exp s =
      if is_unsafe r.method && not (r.origin == cfg.client_origin)
      then refuse 403 "origin not allowed" s
      else (let (now, s') = look.now s in
          if ltb exp (now + session_ttl / 2)
          then (let (later, s'') = look.now s' in
              and_cookie (set_session_cookie id (later + session_ttl) cfg.insecure)
                (next (some p) r s''))
          else next (some p) r s')

  -- A session cookie: a session that is not found leaves the request anonymous.
  unfoldable pub by_cookie :
      Config → Lookups S → Handler S A → Request → String → S → Response A × S
  unfolding with_session
  by_cookie cfg look next r id s =
      let (res, s') = look.principal id s in
      elim res [ err e ↦ next none r s' | ok (p, exp) ↦ with_session cfg look next r id p exp s' ]

  -- Middleware
  unfoldable pub middleware : Config → Lookups S → Handler S A → Request → S → Response A × S
  unfolding by_token by_cookie
  middleware cfg look next r s =
      if has_prefix r.authorization "Bearer "
      then by_token look next r s
      else elim r.cookie [ none ↦ next none r s | some id ↦ by_cookie cfg look next r id s ]

  -- RequireUser
  unfoldable pub require_user : Handler S A → Handler S A
  require_user next none r s = refuse 401 "sign in required" s
  require_user next (some p) r s = elim p.kind [
    | user ↦ next (some p) r s
    | _ ↦ refuse 403 "device tokens cannot use this route" s
  ]

  abbrev pub admin_only : Handler S A → Handler S A
  admin_only next ctx r s =
      if not ((from_context ctx).role == "admin") then refuse 403 "admin only" s else next ctx r s

  -- RequireAdmin
  unfoldable pub require_admin : Handler S A → Handler S A
  unfolding require_user
  require_admin next = require_user (admin_only next)

  -- RequireDevice
  unfoldable pub require_device : Handler S A → Handler S A
  require_device next none r s = refuse 403 "device token required" s
  require_device next (some p) r s = elim p.kind [
    | device ↦ next (some p) r s
    | _ ↦ refuse 403 "device token required" s
  ]
