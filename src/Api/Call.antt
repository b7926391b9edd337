-- ===== src/Api/Call.antt =====
-- internal/api/server.gen.go: the operations of ServerInterface with what their wrappers pass on, and the
-- routes that HandlerWithOptions registers for them.
use Prim.Native.String
use cellarkeep_server.Prelude.{String, Option}
use cellarkeep_server.Store.Model.{Uuid}
use cellarkeep_server.Http.{Request}
use cellarkeep_server.Api.Router.{base_path}
use cellarkeep_server.Api.Types.{
  SetupRequest, Credentials, RegisterRequest, ChangePasswordRequest, InviteCreate, VesselInput,
  IngredientInput, StockAdjust, Decoded,
}

-- The outcome of runtime.BindStyledParameterWithOptions: a value, or the text of the
-- InvalidParamFormatError.
pub data Param (A : Type 0) : Type 0 where
  bound : A → Param A
  misformed : String → Param A

-- A call of one of the operations: its path parameter and its body, if it has them.
pub data Call : Type 0 where
  auth_setup : Decoded SetupRequest → Call
  auth_login : Decoded Credentials → Call
  auth_logout : Call
  auth_me : Call
  auth_register : Decoded RegisterRequest → Call
  auth_change_password : Decoded ChangePasswordRequest → Call
  auth_status : Call
  list_invites : Call
  create_invite : Option (Decoded InviteCreate) → Call
  revoke_invite : Param Uuid → Call
  preview_invite : Param String → Call
  list_members : Call
  list_vessels : Call
  create_vessel : Decoded VesselInput → Call
  delete_vessel : Param Uuid → Call
  update_vessel : Param Uuid → Decoded VesselInput → Call
  create_ingredient : Decoded IngredientInput → Call
  list_inventory : Call
  adjust_stock : Param Uuid → Decoded StockAdjust → Call

-- The method and the path, without the base path, that HandlerWithOptions registers for an operation.
abbrev pub route_of : Call → String × String
route_of (Call.auth_setup _) = ("POST", "/auth/setup")
route_of (Call.auth_login _) = ("POST", "/auth/login")
route_of Call.auth_logout = ("POST", "/auth/logout")
route_of Call.auth_me = ("GET", "/auth/me")
route_of (Call.auth_register _) = ("POST", "/auth/register")
route_of (Call.auth_change_password _) = ("POST", "/auth/password")
route_of Call.auth_status = ("GET", "/auth/status")
route_of Call.list_invites = ("GET", "/invites")
route_of (Call.create_invite _) = ("POST", "/invites")
route_of (Call.revoke_invite _) = ("POST", "/invites/{id}/revoke")
route_of (Call.preview_invite _) = ("GET", "/invites/preview/{token}")
route_of Call.list_members = ("GET", "/members")
route_of Call.list_vessels = ("GET", "/vessels")
route_of (Call.create_vessel _) = ("POST", "/vessels")
route_of (Call.delete_vessel _) = ("DELETE", "/vessels/{id}")
route_of (Call.update_vessel _ _) = ("PUT", "/vessels/{id}")
route_of (Call.create_ingredient _) = ("POST", "/ingredients")
route_of Call.list_inventory = ("GET", "/inventory")
route_of (Call.adjust_stock _ _) = ("POST", "/inventory/{ingredientId}/adjust")

-- The request as the gate sees it, once chi has matched the route of the call.
abbrev pub routed : Call → Request → Request
routed c r = record r { method = (route_of c).0; pattern = String.◌++◌ base_path (route_of c).1 }
