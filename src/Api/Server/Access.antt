-- ===== src/Api/Server/Access.antt =====
-- Whom the composed server lets reach a handler.
pub mod Origin
use cellarkeep_server.Prelude.{
  String, Bool, true, false, not, ◌&&◌, ◌||◌, Option, none, some, string_eq, ◌==◌, ◌≡◌, ◌⊎◌, refl,
  arith, if◌then◌else◌, inl, inr, Bool-cases, Option-cases, ap, sym, ◌∙◌, ltb, ◌+◌, ◌/◌,
}
use cellarkeep_server.Prelude.Text.{has_prefix}
use cellarkeep_server.Store.Model.{Time}
use cellarkeep_server.Store.Action.{ok, err, Error, Result-cases}
use cellarkeep_server.Http.{Request, Response, Principal, Handler, problem, set_session_cookie}
use cellarkeep_server.Auth.Middleware.{
  is_unsafe, and_cookie, by_token, with_session, by_cookie, middleware, require_user, require_admin,
  session_ttl,
}
use cellarkeep_server.Domain.Sessions.{principal, principal_for_token}
use cellarkeep_server.Domain.Sessions.Lookup.{IsPrincipalOf, principal-IsPrincipalOf}
use cellarkeep_server.Api.Router.{
  RouteTable, is_in, public_ops, device_ops, admin_ops, resolve, gate_known, gate,
}
use cellarkeep_server.Api.Router.Gate.{unknown, admins, level_by, level}
use cellarkeep_server.Api.Types.{Reply}
use cellarkeep_server.Api.Handlers.{Handlers, Server}
use cellarkeep_server.Api.Server.{lift, lookups, config_of, serve}

-- A request with a bearer token is answered 401, whatever else it carries: the state is as before and
-- the handler does not run.
pub bearer_refused :
    (h : Handlers) (t : RouteTable) (next : Handler Server Reply) (r : Request) (s : Server)
    → has_prefix r.authorization "Bearer " ≡ true
    → serve h t next r s ≡ (problem 401 "invalid device token" "", s)
unfolding serve middleware by_token principal_for_token
bearer_refused h t next r s b = rw b refl

admins-eq :
    (u p d a : Bool)
    → (if u then unknown else level_by p d a) ≡ admins
    → (u ≡ false) × (p ≡ false) × (d ≡ false) × (a ≡ true)
admins-eq true p d a h = cc
admins-eq false true d a h = cc
admins-eq false false true a h = cc
admins-eq false false false true h = (refl, refl, refl, refl)
admins-eq false false false false h = cc

-- A refusal: 401 or 403.
abbrev pub Refused : Response Reply × Server → Type 0
Refused out = (out.0.status ≡ 401) ⊎ (out.0.status ≡ 403)

module _ (h : Handlers) (next : Handler Server Reply) (r : Request) (id : String) (s : Server) where
  pub by_cookie-ok :
      (p : Principal) (expires : Time)
      → (principal h.store id s.world).0 ≡ ok (p, expires)
      → by_cookie (config_of h) (lookups h.store) next r id s
        ≡ with_session
            (config_of h)
            (lookups h.store)
            next
            r
            id
            p
            expires
            (lift (principal h.store id) s).1
  unfolding by_cookie
  by_cookie-ok p expires e = simp (by_cookie, e) refl

  pub by_cookie-err :
      (x : Error)
      → (principal h.store id s.world).0 ≡ err x
      → by_cookie (config_of h) (lookups h.store) next r id s
        ≡ next none r (lift (principal h.store id) s).1
  unfolding by_cookie
  by_cookie-err x e = simp (by_cookie, e) refl

gate_admin :
    (t : RouteTable) (next : Handler Server Reply) (r : Request) (ctx : Option Principal)
    (s : Server)
    → level t (resolve t r.method r.pattern) ≡ admins
    → gate t next ctx r s ≡ require_admin next ctx r s
unfolding gate gate_known
gate_admin t next r ctx s h =
    let op = resolve t r.method r.pattern in
    let (u, p, d, a) =
      admins-eq (op == "" || not (is_in t.known op)) (is_in public_ops op) (is_in device_ops op)
        (is_in admin_ops op) h in
    rw (u, p, d, a) refl

-- A session cookie that stands for an administrator, sent from the client's own origin when the
-- method writes.
abbrev pub AdminCookie : Handlers → Request → Server → Type 0
AdminCookie h r s =
    (id : String) × (p : Principal) × (expires : Time) × (r.cookie ≡ some id)
    × IsPrincipalOf id (h.store.runtime.now s.world.tick) s.world.tables p expires
    × (p.role == "admin" ≡ true)
    × (is_unsafe r.method && not (r.origin == h.client_origin) ≡ false)

module _ (t : RouteTable) (next next' : Handler Server Reply) (r : Request) where
  gate_same :
      (p : Principal) (s : Server)
      → level t (resolve t r.method r.pattern) ≡ admins
      → ((gate t next (some p) r s ≡ gate t next' (some p) r s)
          × Refused (gate t next (some p) r s))
        ⊎ (p.role == "admin" ≡ true)
  unfolding require_admin require_user
  gate_same p s h =
      rw (gate_admin t next r (some p) s h, gate_admin t next' r (some p) s h) (ground arith)

  anonymous_same :
      (s : Server)
      → level t (resolve t r.method r.pattern) ≡ admins
      → (gate t next none r s ≡ gate t next' none r s) × Refused (gate t next none r s)
  unfolding require_admin require_user
  anonymous_same s h =
      rw (gate_admin t next r none s h, gate_admin t next' r none s h) (refl, inl refl)

  with_session_same :
      (h : Handlers) (id : String) (p : Principal) (expires : Time) (s : Server)
      → level t (resolve t r.method r.pattern) ≡ admins
      → ((with_session (config_of h) (lookups h.store) (gate t next) r id p expires s
            ≡ with_session (config_of h) (lookups h.store) (gate t next') r id p expires s)
          × Refused (with_session (config_of h) (lookups h.store) (gate t next) r id p expires s))
        ⊎ ((p.role == "admin" ≡ true)
            × (is_unsafe r.method && not (r.origin == h.client_origin) ≡ false))
  unfolding with_session
  with_session_same h id p expires s lvl =
      let s' = ((lookups h.store).now s).1 in
      let s'' = ((lookups h.store).now s').1 in
      let renewed = set_session_cookie id (((lookups h.store).now s').0 + session_ttl) h.insecure in
      elim (Bool-cases (is_unsafe r.method && not (r.origin == h.client_origin))) [
        | inl foreign ↦ rw foreign (inl (refl, inr refl))
        | inr own ↦
            elim (Bool-cases (ltb expires (h.store.runtime.now s.world.tick + session_ttl / 2))) [
              | inl late ↦
                  rw (own, late)
                    (elim (gate_same p s'' lvl) [
                      | inl (e, refused) ↦ inl (ap (and_cookie renewed) e, refused)
                      | inr admin ↦ inr (admin, refl)
                    ])
              | inr early ↦
                  rw (own, early)
                    (elim (gate_same p s' lvl) [ inl e ↦ inl e | inr admin ↦ inr (admin, refl) ])
            ]
      ]

  by_cookie_same :
      (h : Handlers) (id : String) (s : Server)
      → r.cookie ≡ some id
      → level t (resolve t r.method r.pattern) ≡ admins
      → ((by_cookie (config_of h) (lookups h.store) (gate t next) r id s
            ≡ by_cookie (config_of h) (lookups h.store) (gate t next') r id s)
          × Refused (by_cookie (config_of h) (lookups h.store) (gate t next) r id s))
        ⊎ AdminCookie h r s
  by_cookie_same h id s c lvl = elim (Result-cases (principal h.store id s.world).0) [
    | inl ((p, expires), e) ↦
        rw
          (
            by_cookie-ok h (gate t next) r id s p expires e,
            by_cookie-ok h (gate t next') r id s p expires e,
          )
          (elim (with_session_same h id p expires (lift (principal h.store id) s).1 lvl) [
            | inl same ↦ inl same
            | inr (role, origin) ↦ inr (
              id,
              p,
              expires,
              c,
              principal-IsPrincipalOf h.store id s.world p expires e,
              role,
              origin,
            )
          ])
    | inr (x, e) ↦
        rw (by_cookie-err h (gate t next) r id s x e, by_cookie-err h (gate t next') r id s x e)
          (inl (anonymous_same _ lvl))
  ]

pub serve-cookie :
    (h : Handlers) (t : RouteTable) (next : Handler Server Reply) (r : Request) (s : Server)
    (id : String)
    → has_prefix r.authorization "Bearer " ≡ false
    → r.cookie ≡ some id
    → serve h t next r s ≡ by_cookie (config_of h) (lookups h.store) (gate t next) r id s
unfolding serve middleware
serve-cookie h t next r s id b c = simp (b, c) refl

-- Whatever handler stands behind a route of an administrators' operation, the answer is the same
-- refusal with 401 or 403, except for a request whose session cookie is the id of a session in the table
-- that expires after the server's time at the lookup, whose owner has the role of administrator in the
-- table, and which comes from the client's own origin if its method writes.
pub admin_route :
    (h : Handlers) (t : RouteTable) (next next' : Handler Server Reply) (r : Request) (s : Server)
    → level t (resolve t r.method r.pattern) ≡ admins
    → ((serve h t next r s ≡ serve h t next' r s) × Refused (serve h t next r s))
      ⊎ AdminCookie h r s
unfolding serve middleware
admin_route h t next next' r s lvl = elim (Bool-cases (has_prefix r.authorization "Bearer ")) [
  | inl b ↦ inl (
    bearer_refused h t next r s b ∙ sym (bearer_refused h t next' r s b),
    rw (bearer_refused h t next r s b) (inl refl),
  )
  | inr b ↦ elim (Option-cases r.cookie) [
    | inl c ↦ rw (b, c) (inl (anonymous_same t next next' r s lvl))
    | inr (id, c) ↦
        rw (serve-cookie h t next r s id b c, serve-cookie h t next' r s id b c)
          (by_cookie_same t next next' r h id s c lvl)
  ]
]
