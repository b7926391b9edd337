-- ===== src/Api/Wrapper/Contract.antt =====
-- api/openapi.yaml: the operations of the contract, and the access level that each operation of the server
-- ends up with. In the embedded copy of the contract the generator has capitalised the operation ids.
use Prim.Native.Char.{Char}
use Prim.Native.String
use cellarkeep_server.Prelude.{String, List, [], ◌∷◌, some, none, string_eq, ◌≡◌, refl}
use cellarkeep_server.Prelude.Text.{strip_prefix, trim_prefix}
use cellarkeep_server.Api.Call.{Call, route_of}
use cellarkeep_server.Api.Router.{
  base_path, Operation, RouteTable, lower_first, read, add_operation, add_operations,
  new_route_table, resolve, check, check_operations, check_operation,
}
use cellarkeep_server.Api.Router.Gate.{Level, public, any_caller, admins, users, level}

abbrev pub op : String → String → String → Operation
op method path id = record { path = path; method = method; operation_id = id }

-- The paths of the contract.
abbrev pub contract : List Operation
contract =
    op "POST" "/auth/setup" "AuthSetup"
    ∷ op "POST" "/auth/login" "AuthLogin"
    ∷ op "POST" "/auth/logout" "AuthLogout"
    ∷ op "GET" "/auth/me" "AuthMe"
    ∷ op "POST" "/auth/register" "AuthRegister"
    ∷ op "POST" "/auth/password" "AuthChangePassword"
    ∷ op "GET" "/auth/status" "AuthStatus"
    ∷ op "GET" "/invites" "ListInvites"
    ∷ op "POST" "/invites" "CreateInvite"
    ∷ op "POST" "/invites/{id}/revoke" "RevokeInvite"
    ∷ op "GET" "/invites/preview/{token}" "PreviewInvite"
    ∷ op "GET" "/members" "ListMembers"
    ∷ op "GET" "/vessels" "ListVessels"
    ∷ op "POST" "/vessels" "CreateVessel"
    ∷ op "PUT" "/vessels/{id}" "UpdateVessel"
    ∷ op "DELETE" "/vessels/{id}" "DeleteVessel"
    ∷ op "POST" "/ingredients" "CreateIngredient"
    ∷ op "GET" "/inventory" "ListInventory"
    ∷ op "POST" "/inventory/{ingredientId}/adjust" "AdjustStock"
    ∷ []

-- What the code relies on of unicode.ToLower, at the initials of the operation ids.
pub record LowersInitials (low : Char → Char) : Type 0 where
  pub low_a : low "A" ≡ "a"
  pub low_c : low "C" ≡ "c"
  pub low_d : low "D" ≡ "d"
  pub low_l : low "L" ≡ "l"
  pub low_p : low "P" ≡ "p"
  pub low_r : low "R" ≡ "r"
  pub low_u : low "U" ≡ "u"

-- The access that the comments of internal/api/router.go ask for each operation.
abbrev pub access : Call → Level
access (Call.auth_setup _) = public
access (Call.auth_login _) = public
access (Call.auth_register _) = public
access Call.auth_status = public
access (Call.preview_invite _) = public
access Call.list_vessels = any_caller
access Call.list_invites = admins
access (Call.create_invite _) = admins
access (Call.revoke_invite _) = admins
access Call.list_members = admins
access Call.auth_logout = users
access Call.auth_me = users
access (Call.auth_change_password _) = users
access (Call.create_vessel _) = users
access (Call.delete_vessel _) = users
access (Call.update_vessel _ _) = users
access (Call.create_ingredient _) = users
access Call.list_inventory = users
access (Call.adjust_stock _ _) = users

abbrev route : String → String → String × String
route key id = (key, id)

table : RouteTable
table = record {
  by_route =
      route "POST /inventory/{ingredientId}/adjust" "adjustStock"
      ∷ route "GET /inventory" "listInventory"
      ∷ route "POST /ingredients" "createIngredient"
      ∷ route "DELETE /vessels/{id}" "deleteVessel"
      ∷ route "PUT /vessels/{id}" "updateVessel"
      ∷ route "POST /vessels" "createVessel"
      ∷ route "GET /vessels" "listVessels"
      ∷ route "GET /members" "listMembers"
      ∷ route "GET /invites/preview/{token}" "previewInvite"
      ∷ route "POST /invites/{id}/revoke" "revokeInvite"
      ∷ route "POST /invites" "createInvite"
      ∷ route "GET /invites" "listInvites"
      ∷ route "GET /auth/status" "authStatus"
      ∷ route "POST /auth/password" "authChangePassword"
      ∷ route "POST /auth/register" "authRegister"
      ∷ route "GET /auth/me" "authMe"
      ∷ route "POST /auth/logout" "authLogout"
      ∷ route "POST /auth/login" "authLogin"
      ∷ route "POST /auth/setup" "authSetup"
      ∷ [];
  known =
      "adjustStock" ∷ "listInventory" ∷ "createIngredient" ∷ "deleteVessel" ∷ "updateVessel"
      ∷ "createVessel" ∷ "listVessels" ∷ "listMembers" ∷ "previewInvite" ∷ "revokeInvite"
      ∷ "createInvite" ∷ "listInvites" ∷ "authStatus" ∷ "authChangePassword" ∷ "authRegister"
      ∷ "authMe" ∷ "authLogout" ∷ "authLogin" ∷ "authSetup" ∷ [];
}

-- The table that the contract gives, with the ids written as they are in the gating tables.
table_lem : (low : Char → Char) → LowersInitials low → new_route_table low (some contract) ≡ table
unfolding new_route_table add_operations add_operation lower_first table
table_lem low l = simp (l.low_a, l.low_c, l.low_d, l.low_l, l.low_p, l.low_r, l.low_u) refl

table-access :
    (c : Call)
    → level table (resolve table (route_of c).0 (String.◌++◌ base_path (route_of c).1)) ≡ access c
unfolding table resolve read strip_prefix trim_prefix
table-access (Call.auth_setup _) = refl
table-access (Call.auth_login _) = refl
table-access (Call.auth_register _) = refl
table-access Call.auth_status = refl
table-access (Call.preview_invite _) = refl
table-access Call.list_vessels = refl
table-access Call.list_invites = refl
table-access (Call.create_invite _) = refl
table-access (Call.revoke_invite _) = refl
table-access Call.list_members = refl
table-access Call.auth_logout = refl
table-access Call.auth_me = refl
table-access (Call.auth_change_password _) = refl
table-access (Call.create_vessel _) = refl
table-access (Call.delete_vessel _) = refl
table-access (Call.update_vessel _ _) = refl
table-access (Call.create_ingredient _) = refl
table-access Call.list_inventory = refl
table-access (Call.adjust_stock _ _) = refl

check-table : (low : Char → Char) → LowersInitials low → check low table (some contract) ≡ none
unfolding check check_operations check_operation lower_first table resolve read trim_prefix
    strip_prefix
check-table low l = simp (l.low_a, l.low_c, l.low_d, l.low_l, l.low_p, l.low_r, l.low_u) refl

-- NewRouter's check passes on the contract.
pub check-contract :
    (low : Char → Char)
    → LowersInitials low
    → check low (new_route_table low (some contract)) (some contract) ≡ none
check-contract low l = rw (table_lem low l) (check-table low l)

-- Every operation that the server registers resolves, through the contract's table, to an operation of the
-- access level that is asked for it: none is unknown, and the four on invites and members are for
-- administrators.
pub access_lem :
    (low : Char → Char) (c : Call)
    → LowersInitials low
    → let t = new_route_table low (some contract) in
      level t (resolve t (route_of c).0 (String.◌++◌ base_path (route_of c).1)) ≡ access c
access_lem low c l = rw (table_lem low l) (table-access c)
