-- ===== src/Api/Wrapper/Admin.antt =====
-- A request to an administrators' operation, through the contract's table, the middleware, the wrapper and
-- the gate.
use Prim.Native.Char.{Char}
use cellarkeep_server.Prelude.{
  update_where, ℕ, String, not, ◌&&◌, Option, none, some, string_eq, ◌==◌, ◌≡◌, ◌⊎◌, ltb, ◌+◌, ◌/◌,
  inl, inr, refl, sym, ap, ◌∙◌, subst, Bool-cases, Option-cases, arith,
}
use cellarkeep_server.Prelude.Text.{has_prefix}
use cellarkeep_server.Store.Model.{Time, Session, Tables}
use cellarkeep_server.Store.Action.{Store, Result-cases}
use cellarkeep_server.Store.Keeps.{Keeps, Keeps-run}
use cellarkeep_server.Store.Users.{touch_session}
use cellarkeep_server.Http.{Request, Response, Principal, Handler, problem, write_header}
use cellarkeep_server.Auth.Middleware.{
  is_unsafe, session_ttl, by_token, by_cookie, with_session, middleware,
}
use cellarkeep_server.Domain.Sessions.{principal, principal_for_token}
use cellarkeep_server.Domain.Keeps.{Keeps-principal}
use cellarkeep_server.Api.Types.{Reply}
use cellarkeep_server.Api.Router.{RouteTable, resolve, new_route_table, gate}
use cellarkeep_server.Api.Router.Gate.{admins, level, gate_lem}
use cellarkeep_server.Api.Handlers.{Handlers, Server}
use cellarkeep_server.Api.Server.{lookups, config_of, serve}
use cellarkeep_server.Api.Server.Access.{by_cookie-ok, by_cookie-err, AdminCookie, admin_route}
use cellarkeep_server.Api.Call.{Param, bound, misformed, Call, routed}
use cellarkeep_server.Api.Wrapper.{with_param, wrapped, respond}
use cellarkeep_server.Api.Wrapper.Contract.{contract, LowersInitials, access, access_lem}
use cellarkeep_server.Api.Wrapper.Stability.{Respects-middleware}

-- Nothing but expiries of sessions has changed.
abbrev pub OnlySessions : Tables → Tables → Type 0
OnlySessions before db = db ≡ record before { sessions = db.sessions }

Keeps-touch_session :
    (s : Store) (before : Tables) (id : String) (expires : Time)
    → Keeps (OnlySessions before) (touch_session s id expires)
unfolding touch_session
Keeps-touch_session s before id expires = Keeps-run s _ (λ t db a db' q e.
    let sessions' =
      update_where (λ (x : Session). x.id == id) (λ x. record x { expires_at = expires })
        db.sessions in
    let same : record db { sessions = sessions' } ≡ db' = ground arith in
    subst (OnlySessions before) same (ap (λ (x : Tables). record x { sessions = sessions' }) q))

-- What the statuses of a handler and the middleware's own refusals have in common.
module _ (h : Handlers) (Q : ℕ → Type 0) (q401 : Q 401) (q403 : Q 403) (next : Handler Server Reply)
    (qn : (ctx : Option Principal) (r : Request) (s : Server) → Q (next ctx r s).0.status)
    (r : Request) where
  with_session-status :
      (id : String) (p : Principal) (expires : Time) (s : Server)
      → Q (with_session (config_of h) (lookups h.store) next r id p expires s).0.status
  unfolding with_session
  with_session-status id p expires s =
      elim (Bool-cases (is_unsafe r.method && not (r.origin == h.client_origin))) [
        | inl foreign ↦ simp foreign q403
        | inr own ↦
            elim (Bool-cases (ltb expires (h.store.runtime.now s.world.tick + session_ttl / 2))) [
              | inl late ↦ simp (own, late) (qn (some p) r _)
              | inr early ↦ simp (own, early) (qn (some p) r _)
            ]
      ]

  by_cookie-status :
      (id : String) (s : Server)
      → Q (by_cookie (config_of h) (lookups h.store) next r id s).0.status
  by_cookie-status id s = elim (Result-cases (principal h.store id s.world).0) [
    | inl ((p, expires), e) ↦
        rw (by_cookie-ok h next r id s p expires e) (with_session-status id p expires _)
    | inr (x, e) ↦ rw (by_cookie-err h next r id s x e) (qn none r _)
  ]

  middleware-status :
      (s : Server) → Q (middleware (config_of h) (lookups h.store) next r s).0.status
  unfolding middleware by_token principal_for_token
  middleware-status s = elim (Bool-cases (has_prefix r.authorization "Bearer ")) [
    | inl b ↦ simp b q401
    | inr b ↦ elim (Option-cases r.cookie) [
      | inl c ↦ simp (b, c) (qn none r s)
      | inr (id, c) ↦ simp (b, c) (by_cookie-status id s)
    ]
  ]

-- A refusal: 400, 401 or 403.
abbrev pub IsRefusal : ℕ → Type 0
IsRefusal status = (status ≡ 400) ⊎ (status ≡ 401) ⊎ (status ≡ 403)

-- A request that is refused and whose only trace is the renewal of a session.
abbrev pub TurnedAway : Server → Response Reply × Server → Type 0
TurnedAway s out = IsRefusal out.0.status × OnlySessions s.world.tables out.1.world.tables

abbrev idle : Handler Server Reply
idle ctx r s = (write_header 204, s)

module _ (h : Handlers) (t : RouteTable) (r : Request) (s : Server) where
  kept :
      (next : Handler Server Reply)
      → ((ctx : Option Principal) (r : Request) (v : Server) → (next ctx r v).1 ≡ v)
      → OnlySessions s.world.tables
          (middleware (config_of h) (lookups h.store) next r s).1.world.tables
  kept next quiet =
      (Respects-middleware h (OnlySessions s.world.tables)
          (Keeps-principal h.store (OnlySessions s.world.tables)
            (Keeps-touch_session h.store s.world.tables))
          next (λ ctx r. record { at = λ v p. rw (quiet ctx r v) p }) r).at
        s refl

  gate-idle : (ctx : Option Principal) (r' : Request) (v : Server) → (gate t idle ctx r' v).1 ≡ v
  gate-idle ctx r' v = elim (gate_lem t idle ctx r' v) [
    | inl (_, e) ↦ rw e refl
    | inr (_, (_, same)) ↦ same
  ]

  gated :
      (next : Handler Server Reply)
      → level t (resolve t r.method r.pattern) ≡ admins
      → AdminCookie h r s
        ⊎ TurnedAway s (middleware (config_of h) (lookups h.store) (gate t next) r s)
  unfolding serve
  gated next lvl = elim (admin_route h t next idle r s lvl) [
    | inr admin ↦ inl admin
    | inl (same, refused) ↦ inr (
      inr refused,
      subst (λ (out : Response Reply × Server). OnlySessions s.world.tables out.1.world.tables)
          (sym same) (kept (gate t idle) gate-idle),
    )
  ]

  misformed-away :
      (e : String)
      → TurnedAway s (
          middleware
            (config_of h)
            (lookups h.store)
            (λ ctx r' v. (problem 400 "invalid request" e, v))
            r
            s)
  misformed-away e = (
    middleware-status h IsRefusal (inr (inl refl)) (inr (inr refl)) _ (λ ctx r' v. inl refl) r s,
    kept _ (λ ctx r' v. refl),
  )

  with_param-away :
      {A : Type 0} (o : Param A) (next : A → Handler Server Reply)
      → level t (resolve t r.method r.pattern) ≡ admins
      → AdminCookie h r s
        ⊎ TurnedAway s (middleware (config_of h) (lookups h.store) (with_param t o next) r s)
  unfolding with_param
  with_param-away (bound a) next lvl = gated (next a) lvl
  with_param-away (misformed e) next lvl = inr (misformed-away e)

wrapped-away :
    (h : Handlers) (t : RouteTable) (c : Call) (r : Request) (s : Server)
    → access c ≡ admins
    → level t (resolve t r.method r.pattern) ≡ admins
    → AdminCookie h r s
      ⊎ TurnedAway s (middleware (config_of h) (lookups h.store) (wrapped t h c) r s)
unfolding wrapped
wrapped-away h t Call.list_invites r s a lvl = gated h t r s _ lvl
wrapped-away h t (Call.create_invite body) r s a lvl = gated h t r s _ lvl
wrapped-away h t (Call.revoke_invite id) r s a lvl = with_param-away h t r s id _ lvl
wrapped-away h t Call.list_members r s a lvl = gated h t r s _ lvl
wrapped-away h t c r s a lvl = cc

-- Through the table of the contract, a call of an operation on invites or members from anyone but an
-- administrator with a live session, from the client's own origin if it writes, is answered 400, 401 or
-- 403 and changes nothing but the table of sessions.
pub admin_call :
    (low : Char → Char) (h : Handlers) (c : Call) (r : Request) (s : Server)
    → LowersInitials low
    → access c ≡ admins
    → AdminCookie h (routed c r) s
      ⊎ TurnedAway s (respond h (new_route_table low (some contract)) c r s)
unfolding respond
admin_call low h c r s l a =
    wrapped-away h (new_route_table low (some contract)) c (routed c r) s a (access_lem low c l ∙ a)
