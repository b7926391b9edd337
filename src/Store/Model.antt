-- ===== src/Store/Model.antt =====
-- The row types of internal/store/gen/models.go and the tables of internal/migrations/00001_core.sql
-- that the queries touch. A uuid and an instant are numbers, of which the code only takes equality and
-- order; a `real` column and a Go float are the number of their bit pattern. An enum column is the
-- Go string type over it; the database refuses a value outside the enum (`Store.Members`).
use cellarkeep_server.Prelude.{ℕ, ℤ, String, Option, List}
pub use cellarkeep_server.Store.Enums.{NullEnum, user_roles, vessel_kinds, ingredient_categories}

abbrev pub Uuid : Type 0
Uuid = ℕ

-- An instant, and a duration, in microseconds: what a `timestamptz` column keeps.
abbrev pub Time : Type 0
Time = ℕ

abbrev pub Float32 : Type 0
Float32 = ℕ

abbrev pub Float64 : Type 0
Float64 = ℕ

pub record User : Type 0 where
  pub id : Uuid
  pub email : String
  pub name : String
  pub password_hash : String
  pub role : String
  pub created_at : Time

pub record Session : Type 0 where
  pub id : String
  pub user_id : Uuid
  pub expires_at : Time
  pub created_at : Time

pub record Invite : Type 0 where
  pub id : Uuid
  pub token : String
  pub email : Option String
  pub created_by : Uuid
  pub created_at : Time
  pub expires_at : Time
  pub used_at : Option Time
  pub used_by : Option Uuid
  pub revoked_at : Option Time

pub record Vessel : Type 0 where
  pub id : Uuid
  pub name : String
  pub kind : String
  pub capacity_l : Float32
  pub notes : Option String
  pub created_at : Time

pub record Ingredient : Type 0 where
  pub id : Uuid
  pub name : String
  pub category : String
  pub unit : String

pub record InventoryItem : Type 0 where
  pub id : Uuid
  pub ingredient_id : Uuid
  pub quantity : Float32
  pub cost_per_unit : Option Float32
  pub updated_at : Time

pub record Batch : Type 0 where
  pub id : Uuid
  pub recipe_id : Option Uuid
  pub name : String
  pub beverage : String
  pub start_date : Time
  pub volume_l : Float32
  pub status : String
  pub current_vessel_id : Option Uuid
  pub created_at : Time

pub record BatchEvent : Type 0 where
  pub id : Uuid
  pub batch_id : Uuid
  pub type : String
  pub status : String
  pub sort_index : ℤ
  pub anchor : NullEnum
  pub offset_days : Option ℤ
  pub scheduled_date : Option Time
  pub completed_date : Option Time
  pub vessel_from_id : Option Uuid
  pub vessel_to_id : Option Uuid
  -- the bytes of a JSON document
  pub payload : List ℕ
  pub note : Option String
  pub created_by : Option Uuid
  pub created_at : Time
  pub updated_at : Time

-- The tables that no query touches yet.
pub record BottleLot : Type 0 where
  pub id : Uuid
  pub batch_id : Uuid
  pub bottling_event_id : Uuid
  pub count : ℤ
  pub remaining : ℤ
  pub size_ml : ℤ
  pub drink_from : Option Time
  pub drink_to : Option Time
  pub location : Option String
  pub created_at : Time

pub record Recipe : Type 0 where
  pub id : Uuid
  pub name : String
  pub beverage : String
  pub style : Option String
  pub description : Option String
  pub base_volume_l : Float32
  pub target_og : Option Float32
  pub target_fg : Option Float32
  pub created_at : Time
  pub updated_at : Time

pub record RecipeIngredient : Type 0 where
  pub id : Uuid
  pub recipe_id : Uuid
  pub ingredient_id : Uuid
  pub qty_per_base : Float32
  pub stage : String
  pub sort_index : ℤ

pub record RecipeStep : Type 0 where
  pub id : Uuid
  pub recipe_id : Uuid
  pub sort_index : ℤ
  pub type : String
  pub anchor : String
  pub offset_days : ℤ
  pub label : String
  pub payload : List ℕ

pub record TastingNote : Type 0 where
  pub id : Uuid
  pub lot_id : Uuid
  pub date : Time
  pub rating : Option ℤ
  pub note : Option String
  pub created_by : Option Uuid

-- A table is the list of its rows, the newest first; no query depends on the order of insertion.
pub record Tables : Type 0 where
  pub users : List User
  pub sessions : List Session
  pub invites : List Invite
  pub vessels : List Vessel
  pub ingredients : List Ingredient
  pub inventory_items : List InventoryItem
  pub batches : List Batch
  pub batch_events : List BatchEvent
