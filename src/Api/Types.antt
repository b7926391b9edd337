-- ===== src/Api/Types.antt =====
-- The request and response types of the contract, from internal/api/server.gen.go, and what
-- internal/api/handlers.go makes of errors.
use Prim.Native.String
use cellarkeep_server.Prelude.{String, Bool, Option, List}
use cellarkeep_server.Store.Model.{Uuid, Time, Float32, Float64}
use cellarkeep_server.Store.Action.{
  Error, not_found, conflict, forbidden, body_too_large, validation, Result, ok, err,
}
use cellarkeep_server.Http.{Response, problem}

pub record SetupRequest : Type 0 where
  pub email : String
  pub name : String
  pub password : String

pub record Credentials : Type 0 where
  pub email : String
  pub password : String

pub record RegisterRequest : Type 0 where
  pub email : String
  pub invite_token : String
  pub name : String
  pub password : String

pub record ChangePasswordRequest : Type 0 where
  pub current_password : String
  pub new_password : String

pub record InviteCreate : Type 0 where
  pub email : Option String

pub record VesselInput : Type 0 where
  pub capacity_l : Float32
  pub kind : String
  pub name : String
  pub notes : Option String

pub record IngredientInput : Type 0 where
  pub category : String
  pub name : String
  pub unit : String

pub record StockAdjust : Type 0 where
  pub delta : Float32

pub record User : Type 0 where
  pub created_at : Time
  pub email : String
  pub id : Uuid
  pub name : String
  pub role : String

pub record Invite : Type 0 where
  pub created_at : Time
  pub created_by : Uuid
  pub created_by_name : String
  pub email : Option String
  pub expires_at : Time
  pub id : Uuid
  pub revoked_at : Option Time
  pub token : String
  pub used_at : Option Time
  pub used_by_name : Option String

pub record InvitePreview : Type 0 where
  pub email : Option String
  pub valid : Bool

pub record Occupant : Type 0 where
  pub batch_id : Uuid
  pub batch_name : String
  pub beverage : String
  pub since : Time
  pub volume_l : Float32

pub record Vessel : Type 0 where
  pub capacity_l : Float32
  pub created_at : Time
  pub id : Uuid
  pub kind : String
  pub name : String
  pub notes : Option String
  pub occupant : Option Occupant

pub record Ingredient : Type 0 where
  pub category : String
  pub id : Uuid
  pub name : String
  pub unit : String

pub record InventoryRow : Type 0 where
  pub cost_per_unit : Option Float32
  pub ingredient : Ingredient
  pub stock : Float32

-- The JSON bodies of the responses.
pub data Reply : Type 0 where
  needs_setup : Bool → Reply
  user_reply : User → Reply
  user_list : List User → Reply
  invite_reply : Invite → Reply
  invite_list : List Invite → Reply
  preview_reply : InvitePreview → Reply
  vessel_reply : Vessel → Reply
  vessel_list : List Vessel → Reply
  ingredient_reply : Ingredient → Reply
  inventory_list : List InventoryRow → Reply
  stock_reply : Float64 → Reply

-- What the JSON decoder makes of a body: a value, a body over the limit of one megabyte, or a body that
-- is malformed or has a field that the contract does not declare.
pub data Decoded (A : Type 0) : Type 0 where
  decoded : A → Decoded A
  too_large : Decoded A
  malformed : String → Decoded A

-- decode
unfoldable pub decode : {A : Type 0} → Decoded A → Result A
decode (decoded a) = ok a
decode too_large = err body_too_large
decode (malformed msg) = err (validation "body" msg)

-- ValidationError.Error
abbrev pub validation_text : String → String → String
validation_text field msg = String.◌++◌ field (String.◌++◌ ": " msg)

-- Handlers.writeErr
unfoldable pub write_err : Error → Response Reply
write_err body_too_large = problem 413 "request too large" "request body is larger than 1 MB"
write_err (validation field msg) = problem 422 "validation failed" (validation_text field msg)
write_err not_found = problem 404 "not found" ""
write_err conflict = problem 409 "conflict" "conflict"
write_err forbidden = problem 403 "forbidden" ""
write_err e = problem 500 "internal error" ""
