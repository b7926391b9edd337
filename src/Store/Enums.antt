-- ===== src/Store/Enums.antt =====
-- internal/store/gen/models.go: the string types over the database's enums. The generated methods are the
-- same for every one of them, but for the name of the type: `enum_type` makes them from it.
pub mod Laws
use Prim.Native.String
use cellarkeep_server.Prelude.{
  String, Bool, true, false, Option, none, some, List, [], ◌∷◌, if◌then◌else◌,
}

-- What a value of the driver holds: nothing, bytes, a text, or a value of another type, by its name.
pub data Source : Type 0 where
  nil : Source
  bytes : String → Source
  string : String → Source
  of_type : String → Source

-- NullX: a value and whether it is there.
pub record NullEnum : Type 0 where
  pub value : String
  pub valid : Bool

-- An error, if there is one, and the new value of the receiver.
abbrev pub Scanned : Type 0 → Type 0
Scanned A = Option String × A

-- The constants of a type X and its methods: X.Scan, NullX.Scan and NullX.Value.
pub record EnumType : Type 0 where
  pub values : List String
  pub scan : Source → String → Scanned String
  pub null_scan : Source → NullEnum → Scanned NullEnum
  pub null_value : NullEnum → Source

abbrev pub unsupported : String → String → String
unsupported name given =
    String.◌++◌ "unsupported scan type for " (String.◌++◌ name (String.◌++◌ ": " given))

-- X.Scan, on the receiver's old value
unfoldable pub scan_enum : String → Source → String → Scanned String
scan_enum name (Source.bytes s) old = (none, s)
scan_enum name (Source.string s) old = (none, s)
scan_enum name Source.nil old = (some (unsupported name "<nil>"), old)
scan_enum name (Source.of_type t) old = (some (unsupported name t), old)

abbrev pub now_valid : Scanned String → Scanned NullEnum
now_valid (e, s) = (e, record { value = s; valid = true })

-- NullX.Scan
unfoldable pub scan_null : String → Source → NullEnum → Scanned NullEnum
unfolding scan_enum
scan_null name Source.nil ns = (none, record { value = ""; valid = false })
scan_null name (Source.bytes s) ns = now_valid (scan_enum name (Source.bytes s) ns.value)
scan_null name (Source.string s) ns = now_valid (scan_enum name (Source.string s) ns.value)
scan_null name (Source.of_type t) ns = now_valid (scan_enum name (Source.of_type t) ns.value)

-- NullX.Value, whose error is always nil
unfoldable pub value_of_null : NullEnum → Source
value_of_null ns = if ns.valid then Source.string ns.value else Source.nil

unfoldable pub enum_type : String → List String → EnumType
unfolding scan_enum scan_null value_of_null
enum_type name values = record {
  values = values;
  scan = scan_enum name;
  null_scan = scan_null name;
  null_value = value_of_null;
}

-- The values of the enum types that the modelled writes set.
abbrev pub user_roles : List String
user_roles = "admin" ∷ "member" ∷ []

abbrev pub vessel_kinds : List String
vessel_kinds = "carboy" ∷ "bucket" ∷ "barrel" ∷ "tank" ∷ "keg" ∷ "other" ∷ []

abbrev pub ingredient_categories : List String
ingredient_categories = "fermentable" ∷ "fruit" ∷ "yeast" ∷ "nutrient" ∷ "chemical" ∷ "other" ∷ []

unfoldable pub anchor_type : EnumType
unfolding enum_type
anchor_type = enum_type "AnchorType" ("start" ∷ "previous" ∷ [])

unfoldable pub batch_status : EnumType
unfolding enum_type
batch_status =
    enum_type "BatchStatus"
      ("planned" ∷ "fermenting" ∷ "conditioning" ∷ "bottled" ∷ "archived" ∷ [])

unfoldable pub beverage_type : EnumType
unfolding enum_type
beverage_type = enum_type "BeverageType" ("wine" ∷ "mead" ∷ "cider" ∷ [])

unfoldable pub event_status : EnumType
unfolding enum_type
event_status = enum_type "EventStatus" ("planned" ∷ "done" ∷ "skipped" ∷ [])

unfoldable pub event_type : EnumType
unfolding enum_type
event_type =
    enum_type "EventType"
      ("measurement" ∷ "addition" ∷ "racking" ∷ "stabilize" ∷ "sweeten" ∷ "bottling" ∷ "note" ∷ [])

unfoldable pub ingredient_category : EnumType
unfolding enum_type
ingredient_category = enum_type "IngredientCategory" ingredient_categories

unfoldable pub stage_tag : EnumType
unfolding enum_type
stage_tag =
    enum_type "StageTag" ("primary" ∷ "secondary" ∷ "stabilize" ∷ "sweeten" ∷ "bottling" ∷ [])

unfoldable pub user_role : EnumType
unfolding enum_type
user_role = enum_type "UserRole" user_roles

unfoldable pub vessel_kind : EnumType
unfolding enum_type
vessel_kind = enum_type "VesselKind" vessel_kinds

abbrev pub enum_types : List EnumType
unfolding anchor_type batch_status beverage_type event_status event_type ingredient_category
    stage_tag user_role vessel_kind
enum_types =
    anchor_type ∷ batch_status ∷ beverage_type ∷ event_status ∷ event_type ∷ ingredient_category
    ∷ stage_tag ∷ user_role ∷ vessel_kind ∷ []
