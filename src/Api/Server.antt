-- ===== src/Api/Server.antt =====
-- The routes behind auth.Middleware, as NewRouter of internal/api/router.go puts them together: the
-- caller is resolved, then the gate decides, then the handler runs.
pub mod Access
use cellarkeep_server.Prelude.{ℕ, suc, String}
use cellarkeep_server.Store.Model.{Time}
use cellarkeep_server.Store.Action.{Runtime, Store, World, Action, Result, after}
use cellarkeep_server.Http.{Request, Response, Principal, Handler}
use cellarkeep_server.Auth.Middleware.{Config, Lookups, middleware}
use cellarkeep_server.Domain.Sessions.{principal, principal_for_token}
use cellarkeep_server.Api.Router.{RouteTable, gate}
use cellarkeep_server.Api.Types.{Reply}
use cellarkeep_server.Api.Handlers.{Handlers, Server}

-- A call of the store within the server.
abbrev pub lift : {A : Type 0} → Action A → Server → Result A × Server
lift m s = let (r, w) = m s.world in (r, record { world = w; logins = s.logins })

-- h.sessions and domain.Devices as auth.Middleware sees them, and time.Now.
abbrev pub lookups : Store → Lookups Server
lookups st = record {
  principal = λ id. lift (principal st id);
  principal_for_token = λ token. lift (principal_for_token st token);
  now = λ s. (st.runtime.now s.world.tick, record s { world = after s.world });
}

abbrev pub config_of : Handlers → Config
config_of h = record { client_origin = h.client_origin; insecure = h.insecure }

-- A request to a route of the contract, whose wrapper calls `next`.
unfoldable pub serve :
    Handlers → RouteTable → Handler Server Reply → Request → Server → Response Reply × Server
serve h t next = middleware (config_of h) (lookups h.store) (gate t next)
