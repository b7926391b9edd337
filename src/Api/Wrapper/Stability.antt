-- ===== src/Api/Wrapper/Stability.antt =====
-- A whole request keeps what every query of the store keeps.
use cellarkeep_server.Prelude.{
  String, not, ◌&&◌, Option, none, some, string_eq, ◌==◌, ltb, ◌+◌, ◌/◌, inl, inr, subst, sym,
  Bool-cases, Option-cases,
}
use cellarkeep_server.Prelude.Text.{has_prefix}
use cellarkeep_server.Store.Model.{Time, Tables}
use cellarkeep_server.Store.Action.{Result-cases}
use cellarkeep_server.Store.Keeps.{Keeps, Stable}
use cellarkeep_server.Http.{Request, Response, Principal, Handler}
use cellarkeep_server.Auth.Middleware.{
  is_unsafe, session_ttl, by_token, by_cookie, with_session, middleware,
}
use cellarkeep_server.Domain.Sessions.{principal, principal_for_token}
use cellarkeep_server.Domain.Keeps.{Keeps-principal}
use cellarkeep_server.Api.Types.{Reply}
use cellarkeep_server.Api.Router.{RouteTable, gate}
use cellarkeep_server.Api.Router.Gate.{gate_lem}
use cellarkeep_server.Api.Handlers.{Handlers, Server}
use cellarkeep_server.Api.Server.{lookups, config_of}
use cellarkeep_server.Api.Server.Access.{by_cookie-ok, by_cookie-err}
use cellarkeep_server.Api.Call.{Param, bound, misformed, Call, routed}
use cellarkeep_server.Api.Keeps
use cellarkeep_server.Api.Keeps.{Respects}
use cellarkeep_server.Api.Wrapper.{with_param, wrapped, respond}

-- A handler that keeps a predicate for every caller and every request.
abbrev pub AllRespect : (Tables → Type 0) → Handler Server Reply → Type 0
AllRespect P next = (ctx : Option Principal) (r : Request) → Respects P (next ctx r)

module _ (P : Tables → Type 0) (t : RouteTable) where
  AllRespect-gate : (next : Handler Server Reply) → AllRespect P next → AllRespect P (gate t next)
  AllRespect-gate next k ctx r = record {
    at = λ s p. elim (gate_lem t next ctx r s) [
      | inl (_, e) ↦
          subst (λ (out : Response Reply × Server). P out.1.world.tables) (sym e) ((k ctx r).at s p)
      | inr (_, (_, same)) ↦ subst (λ (x : Server). P x.world.tables) (sym same) p
    ];
  }

  AllRespect-with_param :
      {A : Type 0} (o : Param A) (next : A → Handler Server Reply)
      → ((a : A) → AllRespect P (next a))
      → AllRespect P (with_param t o next)
  unfolding with_param
  AllRespect-with_param (misformed e) next k ctx r = record { at = λ s p. p }
  AllRespect-with_param (bound a) next k ctx r = record {
    at = λ s p. (AllRespect-gate (next a) (k a) ctx r).at s p;
  }

module _ (h : Handlers) (P : Tables → Type 0) (kp : (id : String) → Keeps P (principal h.store id))
    (next : Handler Server Reply) (kn : AllRespect P next) (r : Request) where
  Respects-with_session :
      (id : String) (p : Principal) (expires : Time)
      → Respects P (with_session (config_of h) (lookups h.store) next r id p expires)
  unfolding with_session
  Respects-with_session id p expires = record {
    at = λ s q. elim (Bool-cases (is_unsafe r.method && not (r.origin == h.client_origin))) [
      | inl foreign ↦ simp foreign q
      | inr own ↦
          elim (Bool-cases (ltb expires (h.store.runtime.now s.world.tick + session_ttl / 2))) [
            | inl late ↦ simp (own, late) ((kn (some p) r).at _ q)
            | inr early ↦ simp (own, early) ((kn (some p) r).at _ q)
          ]
    ];
  }

  Respects-by_cookie :
      (id : String) → Respects P (by_cookie (config_of h) (lookups h.store) next r id)
  Respects-by_cookie id = record {
    at = λ s q.
        let q' = (kp id).at s.world q in
        elim (Result-cases (principal h.store id s.world).0) [
          | inl ((p, expires), e) ↦
              rw (by_cookie-ok h next r id s p expires e)
                ((Respects-with_session id p expires).at _ q')
          | inr (x, e) ↦ rw (by_cookie-err h next r id s x e) ((kn none r).at _ q')
        ];
  }

  pub Respects-middleware : Respects P (middleware (config_of h) (lookups h.store) next r)
  unfolding middleware by_token principal_for_token
  Respects-middleware = record {
    at = λ s q. elim (Bool-cases (has_prefix r.authorization "Bearer ")) [
      | inl b ↦ simp b q
      | inr b ↦ elim (Option-cases r.cookie) [
        | inl c ↦ simp (b, c) ((kn none r).at s q)
        | inr (id, c) ↦ simp (b, c) ((Respects-by_cookie id).at s q)
      ]
    ];
  }

module _ (h : Handlers) (P : Tables → Type 0) (k : Stable h.store P) (t : RouteTable) where
  AllRespect-wrapped : (c : Call) → AllRespect P (wrapped t h c)
  unfolding wrapped
  AllRespect-wrapped (Call.auth_setup body) =
      AllRespect-gate P t _ (λ ctx r. Keeps.Respects-auth_setup h P k body)
  AllRespect-wrapped (Call.auth_login body) =
      AllRespect-gate P t _ (λ ctx r. Keeps.Respects-auth_login h P k r.remote_addr body)
  AllRespect-wrapped Call.auth_logout =
      AllRespect-gate P t _ (λ ctx r. Keeps.Respects-auth_logout h P k r.cookie)
  AllRespect-wrapped Call.auth_me =
      AllRespect-gate P t _ (λ ctx r. Keeps.Respects-auth_me h P k ctx)
  AllRespect-wrapped (Call.auth_register body) =
      AllRespect-gate P t _ (λ ctx r. Keeps.Respects-auth_register h P k body)
  AllRespect-wrapped (Call.auth_change_password body) =
      AllRespect-gate P t _ (λ ctx r. Keeps.Respects-auth_change_password h P k ctx body)
  AllRespect-wrapped Call.auth_status =
      AllRespect-gate P t _ (λ ctx r. Keeps.Respects-auth_status h P k)
  AllRespect-wrapped Call.list_invites =
      AllRespect-gate P t _ (λ ctx r. Keeps.Respects-list_invites h P k)
  AllRespect-wrapped (Call.create_invite body) =
      AllRespect-gate P t _ (λ ctx r. Keeps.Respects-create_invite h P k ctx body)
  AllRespect-wrapped (Call.revoke_invite id) =
      AllRespect-with_param P t id _ (λ i ctx r. Keeps.Respects-revoke_invite h P k i)
  AllRespect-wrapped (Call.preview_invite token) =
      AllRespect-with_param P t token _ (λ i ctx r. Keeps.Respects-preview_invite h P k i)
  AllRespect-wrapped Call.list_members =
      AllRespect-gate P t _ (λ ctx r. Keeps.Respects-list_members h P k)
  AllRespect-wrapped Call.list_vessels =
      AllRespect-gate P t _ (λ ctx r. Keeps.Respects-list_vessels h P k)
  AllRespect-wrapped (Call.create_vessel body) =
      AllRespect-gate P t _ (λ ctx r. Keeps.Respects-create_vessel h P k body)
  AllRespect-wrapped (Call.delete_vessel id) =
      AllRespect-with_param P t id _ (λ i ctx r. Keeps.Respects-delete_vessel h P k i)
  AllRespect-wrapped (Call.update_vessel id body) =
      AllRespect-with_param P t id _ (λ i ctx r. Keeps.Respects-update_vessel h P k i body)
  AllRespect-wrapped (Call.create_ingredient body) =
      AllRespect-gate P t _ (λ ctx r. Keeps.Respects-create_ingredient h P k body)
  AllRespect-wrapped Call.list_inventory =
      AllRespect-gate P t _ (λ ctx r. Keeps.Respects-list_inventory h P k)
  AllRespect-wrapped (Call.adjust_stock id body) =
      AllRespect-with_param P t id _ (λ i ctx r. Keeps.Respects-adjust h P k i body)

  -- A predicate that every query of the store keeps is kept by every request, whoever sends it, whatever
  -- it says and whatever fails on the way.
  pub Respects-respond : (c : Call) (r : Request) → Respects P (respond h t c r)
  unfolding respond
  Respects-respond c r =
      Respects-middleware h P (Keeps-principal h.store P k.session_touched) (wrapped t h c)
        (AllRespect-wrapped c) (routed c r)
