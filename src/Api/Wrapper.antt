-- ===== src/Api/Wrapper.antt =====
-- internal/api/server.gen.go: the wrappers (ServerInterfaceWrapper), which bind the path parameters and run
-- the gate in front of the handler.
pub mod Contract
pub mod Stability
pub mod History
pub mod Once
pub mod Admin
use Prim.Native.String
use cellarkeep_server.Prelude.{String, Option, none, some, List}
use cellarkeep_server.Store.Model.{Uuid}
use cellarkeep_server.Http.{Request, Response, Handler, problem}
use cellarkeep_server.Auth.Middleware.{middleware}
use cellarkeep_server.Api.Router.{RouteTable, base_path, gate}
use cellarkeep_server.Api.Types.{
  SetupRequest, Credentials, RegisterRequest, ChangePasswordRequest, InviteCreate, VesselInput,
  IngredientInput, StockAdjust, Decoded, Reply,
}
use cellarkeep_server.Api.Call.{Param, bound, misformed, Call, routed}
use cellarkeep_server.Api.Handlers.{
  Handlers, Server, auth_setup, auth_login, auth_logout, auth_me, auth_register,
  auth_change_password, auth_status, list_members,
}
use cellarkeep_server.Api.Handlers.Invites.{
  list_invites, create_invite, revoke_invite, preview_invite,
}
use cellarkeep_server.Api.Handlers.Vessels.{
  list_vessels, create_vessel, delete_vessel, update_vessel,
}
use cellarkeep_server.Api.Handlers.Stock.{create_ingredient, list_inventory, adjust}
use cellarkeep_server.Api.Server.{config_of, lookups}

-- The handler of an operation whose parameters are bound: `siw.Handler.X`.
abbrev Next : Type 0
Next = Handler Server Reply

module _ (t : RouteTable) where
  -- The part of a wrapper that binds a parameter; the error function is NewRouter's.
  unfoldable pub with_param : {A : Type 0} → Param A → (A → Next) → Next
  with_param (misformed e) next ctx r s = (problem 400 "invalid request" e, s)
  with_param (bound a) next ctx r s = gate t (next a) ctx r s

  -- The wrapper of each operation.
  unfoldable pub wrapped : Handlers → Call → Next
  unfolding with_param
  wrapped h (Call.auth_setup body) = gate t (λ ctx r. auth_setup h body)
  wrapped h (Call.auth_login body) = gate t (λ ctx r. auth_login h r.remote_addr body)
  wrapped h Call.auth_logout = gate t (λ ctx r. auth_logout h r.cookie)
  wrapped h Call.auth_me = gate t (λ ctx r. auth_me h ctx)
  wrapped h (Call.auth_register body) = gate t (λ ctx r. auth_register h body)
  wrapped h (Call.auth_change_password body) = gate t (λ ctx r. auth_change_password h ctx body)
  wrapped h Call.auth_status = gate t (λ ctx r. auth_status h)
  wrapped h Call.list_invites = gate t (λ ctx r. list_invites h)
  wrapped h (Call.create_invite body) = gate t (λ ctx r. create_invite h ctx body)
  wrapped h (Call.revoke_invite id) = with_param id (λ i ctx r. revoke_invite h i)
  wrapped h (Call.preview_invite token) = with_param token (λ i ctx r. preview_invite h i)
  wrapped h Call.list_members = gate t (λ ctx r. list_members h)
  wrapped h Call.list_vessels = gate t (λ ctx r. list_vessels h)
  wrapped h (Call.create_vessel body) = gate t (λ ctx r. create_vessel h body)
  wrapped h (Call.delete_vessel id) = with_param id (λ i ctx r. delete_vessel h i)
  wrapped h (Call.update_vessel id body) = with_param id (λ i ctx r. update_vessel h i body)
  wrapped h (Call.create_ingredient body) = gate t (λ ctx r. create_ingredient h body)
  wrapped h Call.list_inventory = gate t (λ ctx r. list_inventory h)
  wrapped h (Call.adjust_stock id body) = with_param id (λ i ctx r. adjust h i body)

-- A request to an operation, from the middleware to the handler and back.
unfoldable pub respond : Handlers → RouteTable → Call → Request → Server → Response Reply × Server
respond h t c r = middleware (config_of h) (lookups h.store) (wrapped t h c) (routed c r)
