-- ===== src/Api/Router.antt =====
-- internal/api/router.go: the route table that the contract gives, the check of it at start-up, and the
-- gate in front of every handler.
pub mod Table
pub mod Gate
use Prim.Native.Char.{Char}
use Prim.Native.String
use cellarkeep_server.Prelude.{
  ℕ, String, Bool, true, false, not, ◌&&◌, ◌||◌, Option, none, some, List, [], ◌∷◌, has_row,
  string_eq, ◌==◌, if◌then◌else◌,
}
use cellarkeep_server.Prelude.Text.{trim_prefix}
use cellarkeep_server.Http.{
  Request, Response, Principal, PrincipalKind, device, user, unset, Handler, problem,
}
use cellarkeep_server.Auth.Middleware.{require_user, require_admin, refuse}

abbrev pub base_path : String
base_path = "/api/v1"

abbrev pub public_ops : List String
public_ops = "authSetup" ∷ "authLogin" ∷ "authRegister" ∷ "authStatus" ∷ "previewInvite" ∷ []

abbrev pub device_ops : List String
device_ops = "listVessels" ∷ "postReadings" ∷ "listMetrics" ∷ []

abbrev pub admin_ops : List String
admin_ops =
    "listInvites" ∷ "createInvite" ∷ "revokeInvite" ∷ "listMembers" ∷ "listDevices" ∷ "createDevice"
    ∷ "revokeDevice" ∷ []

-- The membership test of a Go map to true.
abbrev pub is_in : List String → String → Bool
is_in ops op = has_row (λ x. x == op) ops

-- The contract's operations in the order in which the loops over it meet them: path, method and
-- operation id. Go iterates over maps, so the order is any.
pub record Operation : Type 0 where
  pub path : String
  pub method : String
  pub operation_id : String

pub record RouteTable : Type 0 where
  pub by_route : List (String × String)
  pub known : List String

-- `method + " " + path`
abbrev pub route_key : String → String → String
route_key method path = String.◌++◌ method (String.◌++◌ " " path)

unfoldable pub lower_first : (Char → Char) → String → String
lower_first low String.[] = String.[]
lower_first low (String.◌∷◌ c s) = String.◌∷◌ (low c) s

-- A Go map of strings, where a missing key reads as the empty text.
unfoldable pub read : String → List (String × String) → String
read key [] = ""
read key ((k, v) ∷ m) = if k == key then v else read key m

-- The table holds the latest value of a key in front.
unfoldable pub add_operation : (Char → Char) → RouteTable → Operation → RouteTable
unfolding lower_first
add_operation low t op = if op.operation_id == "" then t else record {
  by_route = (route_key op.method op.path, lower_first low op.operation_id) ∷ t.by_route;
  known = lower_first low op.operation_id ∷ t.known;
}

unfoldable pub add_operations : (Char → Char) → RouteTable → List Operation → RouteTable
unfolding add_operation
add_operations low t [] = t
add_operations low t (op ∷ ops) = add_operations low (add_operation low t op) ops

-- newRouteTable, on the operations of the contract; `none` is a contract with no paths.
unfoldable pub new_route_table : (Char → Char) → Option (List Operation) → RouteTable
unfolding add_operations
new_route_table low none = record { by_route = []; known = [] }
new_route_table low (some ops) = add_operations low (record { by_route = []; known = [] }) ops

-- routeTable.resolve
unfoldable pub resolve : RouteTable → String → String → String
unfolding read
resolve t method pattern = read (route_key method (trim_prefix pattern base_path)) t.by_route

pub data CheckError : Type 0 where
  no_paths : CheckError
  no_operation_id : Operation → CheckError
  resolves_to : Operation → String → CheckError
  not_known : Operation → CheckError

-- One round of routeTable.check.
unfoldable pub check_operation : (Char → Char) → RouteTable → Operation → Option CheckError
unfolding lower_first resolve
check_operation low t op =
    if op.operation_id == ""
    then some (no_operation_id op)
    else if not
        (resolve t op.method (String.◌++◌ base_path op.path) == lower_first low op.operation_id)
    then some (resolves_to op (resolve t op.method (String.◌++◌ base_path op.path)))
    else if not (is_in t.known (lower_first low op.operation_id))
    then some (not_known op)
    else none

abbrev pub or_else : Option CheckError → Option CheckError → Option CheckError
or_else (some e) rest = some e
or_else none rest = rest

unfoldable pub check_operations : (Char → Char) → RouteTable → List Operation → Option CheckError
unfolding check_operation
check_operations low t [] = none
check_operations low t (op ∷ ops) = or_else (check_operation low t op) (check_operations low t ops)

-- routeTable.check; `none` is a nil error.
unfoldable pub check : (Char → Char) → RouteTable → Option (List Operation) → Option CheckError
unfolding check_operations
check low t none = some no_paths
check low t (some ops) = check_operations low t ops

abbrev pub is_device : Option Principal → Bool
is_device none = false
is_device (some p) = elim p.kind [ device ↦ true | _ ↦ false ]

module _ {S A : Type 0} where
  -- The switch of the gate, on a known operation.
  unfoldable pub gate_known : String → Handler S A → Handler S A
  gate_known op next ctx r s =
      if is_in public_ops op
      then next ctx r s
      else if is_in device_ops op
      then (if is_device ctx then next ctx r s else require_user next ctx r s)
      else if is_in admin_ops op
      then require_admin next ctx r s
      else require_user next ctx r s

  -- gate
  unfoldable pub gate : RouteTable → Handler S A → Handler S A
  unfolding gate_known
  gate t next ctx r s =
      let op = resolve t r.method r.pattern in
      if op == "" || not (is_in t.known op)
      then refuse 403 "unknown operation" s
      else gate_known op next ctx r s
