-- ===== src/Store/Vessels.antt =====
-- internal/store/gen/vessels.sql.go: the queries on vessels and on the batches that they hold.
use cellarkeep_server.Prelude.{
  ℕ, String, Bool, false, Option, none, some, List, [], ◌∷◌, map, ◌++◌, find, has_row, select,
  update_where, delete_where, sort_by, count_where, nat_eq, string_eq, ◌==◌, ◌||◌, ◌&&◌, not, ltb,
  if◌then◌else◌,
}
use cellarkeep_server.Store.Model.{
  Uuid, Time, Float32, Vessel, Batch, BatchEvent, Tables, vessel_kinds,
}
use cellarkeep_server.Store.Action.{
  Runtime, Store, Action, Statement, ok, err, database, unique_violation, foreign_key_violation,
  invalid_enum, run, reading, one,
}

-- The columns that CreateVessel and UpdateVessel set.
pub record VesselParams : Type 0 where
  pub name : String
  pub kind : String
  pub capacity_l : Float32
  pub notes : Option String

unfoldable pub insert_vessel : Runtime → VesselParams → Statement Vessel
insert_vessel rt p t db =
    let row : Vessel = record {
      id = rt.uuid t;
      name = p.name;
      kind = p.kind;
      capacity_l = p.capacity_l;
      notes = p.notes;
      created_at = rt.now t;
    } in
    if not (has_row (λ k. k == p.kind) vessel_kinds)
    then err (database invalid_enum)
    else if has_row (λ (v : Vessel). v.id == rt.uuid t) db.vessels
    then err (database unique_violation)
    else ok (row, record db { vessels = row ∷ db.vessels })

unfoldable pub create_vessel : Store → VesselParams → Action Vessel
create_vessel s p = run s (insert_vessel s.runtime p)

abbrev pub with_params : VesselParams → Vessel → Vessel
with_params p v = record v {
  name = p.name;
  kind = p.kind;
  capacity_l = p.capacity_l;
  notes = p.notes;
}

unfoldable pub update_vessel : Store → Uuid → VesselParams → Action Vessel
update_vessel s id p = run s λ t db.
    if not (has_row (λ k. k == p.kind) vessel_kinds)
    then err (database invalid_enum)
    else elim (one (find (λ (v : Vessel). v.id == id) db.vessels)) [
      | err e ↦ err e
      | ok v ↦ ok (
        with_params p v,
        record db { vessels = update_where (λ x. x.id == id) (with_params p) db.vessels },
      )
    ]

abbrev pub is_at : Uuid → Option Uuid → Bool
is_at id none = false
is_at id (some v) = v == id

-- `status in ('fermenting','conditioning')`
abbrev pub is_active : Batch → Bool
is_active b = b.status == "fermenting" || b.status == "conditioning"

abbrev pub holds_active : Uuid → Batch → Bool
holds_active id b = is_at id b.current_vessel_id && is_active b

unfoldable pub count_active_batches_in_vessel : Store → Uuid → Action ℕ
count_active_batches_in_vessel s id =
    run s (reading (λ t db. ok (count_where (holds_active id) db.batches)))

-- The rows that refer to a vessel by a foreign key, none of which cascades.
abbrev pub refers : Uuid → Tables → Bool
refers id db =
    has_row (λ (b : Batch). is_at id b.current_vessel_id) db.batches
    || has_row (λ (e : BatchEvent). is_at id e.vessel_from_id || is_at id e.vessel_to_id)
        db.batch_events

unfoldable pub remove_vessel : Uuid → Statement (Unit {0})
remove_vessel id t db =
    if has_row (λ (v : Vessel). v.id == id) db.vessels && refers id db
    then err (database foreign_key_violation)
    else ok (tt, record db { vessels = delete_where (λ v. v.id == id) db.vessels })

unfoldable pub delete_vessel : Store → Uuid → Action (Unit {0})
delete_vessel s id = run s (remove_vessel id)

unfoldable pub get_vessel : Store → Uuid → Action Vessel
get_vessel s id = run s (reading (λ t db. one (find (λ v. v.id == id) db.vessels)))

-- `order by created_at, name`
unfoldable pub vessel_lt : Runtime → Vessel → Vessel → Bool
vessel_lt rt a b =
    ltb a.created_at b.created_at || (a.created_at == b.created_at && rt.text_lt a.name b.name)

unfoldable pub list_vessels : Store → Action (List Vessel)
unfolding vessel_lt
list_vessels s = run s (reading (λ t db. ok (sort_by (vessel_lt s.runtime) db.vessels)))

pub record ListVesselsWithOccupantRow : Type 0 where
  pub vessel : Vessel
  pub batch : Option Batch
  pub racked_in : Option Time

-- A racking of the batch into the vessel that is done.
abbrev pub is_racking : Uuid → Uuid → BatchEvent → Bool
is_racking batch_id vessel_id e =
    e.batch_id == batch_id
    && e.type == "racking"
    && e.status == "done"
    && is_at vessel_id e.vessel_to_id

abbrev pub newer : Option Time → Option Time → Option Time
newer none rest = rest
newer (some d) none = some d
newer (some d) (some d') = some (if ltb d d' then d' else d)

-- `order by e.completed_date desc nulls last limit 1`, as the latest of the dates.
unfoldable pub latest : List BatchEvent → Option Time
latest [] = none
latest (e ∷ es) = newer e.completed_date (latest es)

unfoldable pub occupant_row : List BatchEvent → Vessel → Batch → ListVesselsWithOccupantRow
unfolding latest
occupant_row events v b = record {
  vessel = v;
  batch = some b;
  racked_in = latest (select (is_racking b.id v.id) events);
}

-- The left join of a vessel with the active batches in it: one row for each, or one with none.
unfoldable pub vessel_rows : Tables → Vessel → List ListVesselsWithOccupantRow
unfolding occupant_row
vessel_rows db v = elim (select (holds_active v.id) db.batches) [
  | [] ↦ record { vessel = v; batch = none; racked_in = none } ∷ []
  | b ∷ bs ↦ map (occupant_row db.batch_events v) (b ∷ bs)
]

unfoldable pub join_vessels : Tables → List Vessel → List ListVesselsWithOccupantRow
unfolding vessel_rows
join_vessels db [] = []
join_vessels db (v ∷ vs) = vessel_rows db v ++ join_vessels db vs

unfoldable pub list_vessels_with_occupant : Store → Action (List ListVesselsWithOccupantRow)
unfolding join_vessels vessel_lt
list_vessels_with_occupant s =
    run s (reading (λ t db. ok (join_vessels db (sort_by (vessel_lt s.runtime) db.vessels))))
