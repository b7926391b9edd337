-- ===== src/Store/Enums/Laws.antt =====
-- What a value of an enum column becomes on the way to the database and back.
use cellarkeep_server.Prelude.{
  String, false, none, some, List, All, ◌≡◌, ◌⊎◌, inl, inr, refl, if◌then◌else◌, arith,
}
use cellarkeep_server.Store.Enums.{
  Source, NullEnum, EnumType, scan_enum, scan_null, value_of_null, enum_type, enum_types,
  anchor_type, batch_status, beverage_type, event_status, event_type, ingredient_category,
  stage_tag, user_role, vessel_kind,
}

-- A null without a text.
abbrev pub no_value : NullEnum
no_value = record { value = ""; valid = false }

abbrev pub normal : NullEnum → NullEnum
normal ns = if ns.valid then ns else no_value

-- Value and Scan are inverse: what Value writes, Scan reads back, whatever the receiver held, but for the
-- text of a null; and a value that was scanned without an error is written as it was read, bytes as text.
pub record RoundTrips (e : EnumType) : Type 0 where
  pub written : (ns old : NullEnum) → e.null_scan (e.null_value ns) old ≡ (none, normal ns)
  pub read :
      (s : Source) (old ns : NullEnum)
      → e.null_scan s old ≡ (none, ns)
      → (e.null_value ns ≡ s)
        ⊎ ((t : String) × (s ≡ Source.bytes t) × (e.null_value ns ≡ Source.string t))
  -- a failed Scan of the value itself keeps it, and there is no failure but on a value of another type
  pub kept :
      (s : Source) (old : String) (x : String) (v : String)
      → e.scan s old ≡ (some x, v)
      → (v ≡ old) × ((s ≡ Source.nil) ⊎ ((t : String) × (s ≡ Source.of_type t)))

enum_type-RoundTrips : (name : String) (values : List String) → RoundTrips (enum_type name values)
unfolding enum_type scan_null scan_enum value_of_null
enum_type-RoundTrips name values = record { written = written; read = read; kept = kept }
  where
    written : (ns old : NullEnum) → scan_null name (value_of_null ns) old ≡ (none, normal ns)
    written ns old = ground arith

    read :
        (s : Source) (old ns : NullEnum)
        → scan_null name s old ≡ (none, ns)
        → (value_of_null ns ≡ s)
          ⊎ ((t : String) × (s ≡ Source.bytes t) × (value_of_null ns ≡ Source.string t))
    read Source.nil old ns h = inl (ground arith)
    read (Source.bytes t) old ns h = inr (t, refl, ground arith)
    read (Source.string t) old ns h = inl (ground arith)
    read (Source.of_type t) old ns h = cc

    kept :
        (s : Source) (old x v : String)
        → scan_enum name s old ≡ (some x, v)
        → (v ≡ old) × ((s ≡ Source.nil) ⊎ ((t : String) × (s ≡ Source.of_type t)))
    kept Source.nil old x v h = (ground arith, inl refl)
    kept (Source.of_type t) old x v h = (ground arith, inr (t, refl))
    kept (Source.bytes t) old x v h = cc
    kept (Source.string t) old x v h = cc

-- Every enum type of the database goes to it and back unchanged: what Value writes, Scan reads back,
-- whatever the receiver held, but for the text of a null; what Scan has read without an error, Value writes
-- as it was, bytes as text; and Scan of a value fails only on a nil or a value of another type, and then
-- keeps the receiver.
pub enum_types-RoundTrips : All RoundTrips enum_types
unfolding enum_types
enum_types-RoundTrips = (
  enum_type-RoundTrips "AnchorType" anchor_type.values,
  (
    enum_type-RoundTrips "BatchStatus" batch_status.values,
    (
      enum_type-RoundTrips "BeverageType" beverage_type.values,
      (
        enum_type-RoundTrips "EventStatus" event_status.values,
        (
          enum_type-RoundTrips "EventType" event_type.values,
          (
            enum_type-RoundTrips "IngredientCategory" ingredient_category.values,
            (
              enum_type-RoundTrips "StageTag" stage_tag.values,
              (
                enum_type-RoundTrips "UserRole" user_role.values,
                (enum_type-RoundTrips "VesselKind" vessel_kind.values, tt),
              ),
            ),
          ),
        ),
      ),
    ),
  ),
)
