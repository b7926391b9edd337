-- ===== src/Api/Server/Access/Origin.antt =====
-- Writes that another origin sends with a user's cookie.
use cellarkeep_server.Prelude.{
  String, true, false, not, ◌||◌, none, string_eq, ◌==◌, ◌≡◌, refl, arith, inl, inr, Bool-cases,
  Option-cases, sym, ◌∙◌,
}
use cellarkeep_server.Prelude.Text.{has_prefix}
use cellarkeep_server.Store.Action.{Result-cases}
use cellarkeep_server.Http.{Request, Response, Handler}
use cellarkeep_server.Auth.Middleware.{
  is_unsafe, with_session, by_cookie, middleware, require_user, require_admin,
}
use cellarkeep_server.Domain.Sessions.{principal}
use cellarkeep_server.Api.Router.{
  RouteTable, is_in, public_ops, device_ops, admin_ops, resolve, gate_known, gate,
}
use cellarkeep_server.Api.Router.Gate.{level, level_known, permits}
use cellarkeep_server.Api.Types.{Reply}
use cellarkeep_server.Api.Handlers.{Handlers, Server}
use cellarkeep_server.Api.Server.{lookups, config_of, serve}
use cellarkeep_server.Api.Server.Access.{
  Refused, bearer_refused, by_cookie-ok, by_cookie-err, serve-cookie,
}

module _ (t : RouteTable) (next next' : Handler Server Reply) (r : Request) where
  -- The same refusal, whichever of two handlers stands behind it.
  abbrev pub SameRefusal : Response Reply × Server → Response Reply × Server → Type 0
  SameRefusal out out' = (out ≡ out') × Refused out

  anonymous_known :
      (op : String) (s : Server)
      → permits (level_known op) none ≡ false
      → SameRefusal (gate_known op next none r s) (gate_known op next' none r s)
  unfolding gate_known require_user require_admin
  anonymous_known op s h = elim (Bool-cases (is_in public_ops op)) [
    | inl p ↦ absurd (ground arith)
    | inr p ↦ elim (Bool-cases (is_in device_ops op)) [
      | inl d ↦ rw (p, d) (refl, inl refl)
      | inr d ↦ elim (Bool-cases (is_in admin_ops op)) [
        | inl a ↦ rw (p, d, a) (refl, inl refl)
        | inr a ↦ rw (p, d, a) (refl, inl refl)
      ]
    ]
  ]

  anonymous_refused :
      (s : Server)
      → permits (level t (resolve t r.method r.pattern)) none ≡ false
      → SameRefusal (gate t next none r s) (gate t next' none r s)
  unfolding gate
  anonymous_refused s h =
      let op = resolve t r.method r.pattern in
      elim (Bool-cases (op == "" || not (is_in t.known op))) [
        | inl u ↦ rw u (refl, inr refl)
        | inr k ↦ rw k (anonymous_known op s (ground arith))
      ]

  foreign_cookie :
      (h : Handlers) (id : String) (s : Server)
      → is_unsafe r.method ≡ true
      → r.origin == h.client_origin ≡ false
      → permits (level t (resolve t r.method r.pattern)) none ≡ false
      → SameRefusal
          (by_cookie (config_of h) (lookups h.store) (gate t next) r id s)
          (by_cookie (config_of h) (lookups h.store) (gate t next') r id s)
  unfolding with_session
  foreign_cookie h id s write foreign closed =
      elim (Result-cases (principal h.store id s.world).0) [
        | inl ((p, expires), e) ↦
            rw
              (
                by_cookie-ok h (gate t next) r id s p expires e,
                by_cookie-ok h (gate t next') r id s p expires e,
              )
              (rw (write, foreign) (refl, inr refl))
        | inr (x, e) ↦
            rw (by_cookie-err h (gate t next) r id s x e, by_cookie-err h (gate t next') r id s x e)
              (anonymous_refused _ closed)
      ]

-- A write from another origin than the client's, to an operation that is closed to callers without an
-- account, never reaches the handler, whatever token or cookie it carries: whichever handler stands behind
-- the route, the answer and the state are the same, and the answer is 401 or 403.
pub foreign_write-Refused :
    (h : Handlers) (t : RouteTable) (next next' : Handler Server Reply) (r : Request) (s : Server)
    → is_unsafe r.method ≡ true
    → r.origin == h.client_origin ≡ false
    → permits (level t (resolve t r.method r.pattern)) none ≡ false
    → (serve h t next r s ≡ serve h t next' r s) × Refused (serve h t next r s)
unfolding serve middleware
foreign_write-Refused h t next next' r s write foreign closed =
    elim (Bool-cases (has_prefix r.authorization "Bearer ")) [
      | inl b ↦ (
        bearer_refused h t next r s b ∙ sym (bearer_refused h t next' r s b),
        rw (bearer_refused h t next r s b) (inl refl),
      )
      | inr b ↦ elim (Option-cases r.cookie) [
        | inl c ↦ rw (b, c) (anonymous_refused t next next' r s closed)
        | inr (id, c) ↦
            rw (serve-cookie h t next r s id b c, serve-cookie h t next' r s id b c)
              (foreign_cookie t next next' r h id s write foreign closed)
      ]
    ]
