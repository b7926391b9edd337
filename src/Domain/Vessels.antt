-- ===== src/Domain/Vessels.antt =====
-- internal/domain/vessels.go: the vessels and what is in them.
pub mod Deletion
use cellarkeep_server.Prelude.{ℕ, String, Bool, List, map, Option, none, some, ltb, if◌then◌else◌}
use cellarkeep_server.Store.Model.{Uuid, Time, Float64, Vessel, Batch}
use cellarkeep_server.Store.Action.{
  Floats, Runtime, Store, Action, Result, pure, raise_if, ◌>>=◌, ◌>>◌, not_found, conflict,
}
use cellarkeep_server.Store.Vessels.{
  VesselParams, ListVesselsWithOccupantRow, create_vessel, update_vessel, delete_vessel,
  count_active_batches_in_vessel, list_vessels_with_occupant,
}
use cellarkeep_server.Domain.Users.{mapping_no_rows}

pub record Occupant : Type 0 where
  pub batch_id : Uuid
  pub batch_name : String
  pub beverage : String
  pub volume_l : Float64
  pub since : Time

pub record VesselWithOccupant : Type 0 where
  pub vessel : Vessel
  pub occupant : Option Occupant

-- `DayOf` of the racking, or of the start of a batch that never moved; both columns are dates.
abbrev pub since_of : Option Time → Time → Time
since_of none start = start
since_of (some racked) start = racked

abbrev pub occupant_of : Floats → Option Time → Option Batch → Option Occupant
occupant_of fl racked none = none
occupant_of fl racked (some b) = some (record {
  batch_id = b.id;
  batch_name = b.name;
  beverage = b.beverage;
  volume_l = fl.widen b.volume_l;
  since = since_of racked b.start_date;
})

abbrev pub with_occupant : Floats → ListVesselsWithOccupantRow → VesselWithOccupant
with_occupant fl r = record { vessel = r.vessel; occupant = occupant_of fl r.racked_in r.batch }

-- Vessels.List
unfoldable pub list : Store → Action (List VesselWithOccupant)
list s = list_vessels_with_occupant s >>= λ rows. pure (map (with_occupant s.runtime.floats) rows)

-- Vessels.Create
unfoldable pub create : Store → VesselParams → Action Vessel
create s p = create_vessel s p

-- Vessels.Update
unfoldable pub update : Store → Uuid → VesselParams → Action Vessel
update s id p = mapping_no_rows not_found (update_vessel s id p)

-- Vessels.Delete
unfoldable pub delete : Store → Uuid → Action (Unit {0})
delete s id = do
  n ← count_active_batches_in_vessel s id
  raise_if (ltb 0 n) conflict
  delete_vessel s id
