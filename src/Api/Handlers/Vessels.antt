-- ===== src/Api/Handlers/Vessels.antt =====
-- internal/api/handler_vessels.go: the handlers of vessels.
use cellarkeep_server.Prelude.{map, Option, none, some}
use cellarkeep_server.Store.Model.{Uuid, Vessel}
use cellarkeep_server.Store.Action.{Floats, pure, of_result, ◌>>=◌, ◌>>◌}
use cellarkeep_server.Store.Vessels.{VesselParams}
use cellarkeep_server.Http.{Response, write_json, write_header}
use cellarkeep_server.Domain.Vessels.{Occupant, VesselWithOccupant, list, create, update, delete}
use cellarkeep_server.Api.Types.{
  Vessel as ApiVessel, Occupant as ApiOccupant, VesselInput, Reply, vessel_reply, vessel_list,
  Decoded, decode,
}
use cellarkeep_server.Api.Handlers.{Handlers, Server, handle}

abbrev pub occupant_json : Floats → Occupant → ApiOccupant
occupant_json fl o = record {
  batch_id = o.batch_id;
  batch_name = o.batch_name;
  beverage = o.beverage;
  since = o.since;
  volume_l = fl.narrow o.volume_l;
}

abbrev pub occupant_option : Floats → Option Occupant → Option ApiOccupant
occupant_option fl none = none
occupant_option fl (some o) = some (occupant_json fl o)

-- vesselJSON
abbrev pub vessel_json : Floats → VesselWithOccupant → ApiVessel
vessel_json fl v = record {
  capacity_l = v.vessel.capacity_l;
  created_at = v.vessel.created_at;
  id = v.vessel.id;
  kind = v.vessel.kind;
  name = v.vessel.name;
  notes = v.vessel.notes;
  occupant = occupant_option fl v.occupant;
}

abbrev pub params_of : VesselInput → VesselParams
params_of input = record {
  name = input.name;
  kind = input.kind;
  capacity_l = input.capacity_l;
  notes = input.notes;
}

-- A vessel as it was written, without its occupant.
abbrev pub written_json : Floats → Vessel → ApiVessel
written_json fl v = vessel_json fl (record { vessel = v; occupant = none })

-- ListVessels
unfoldable pub list_vessels : Handlers → Server → Response Reply × Server
list_vessels h = handle (do
  rows ← list h.store
  pure (write_json 200 (vessel_list (map (vessel_json h.store.runtime.floats) rows))))

-- CreateVessel
unfoldable pub create_vessel : Handlers → Decoded VesselInput → Server → Response Reply × Server
create_vessel h body = handle (do
  input ← of_result (decode body)
  v ← create h.store (params_of input)
  pure (write_json 201 (vessel_reply (written_json h.store.runtime.floats v))))

-- UpdateVessel
unfoldable pub update_vessel :
    Handlers → Uuid → Decoded VesselInput → Server → Response Reply × Server
update_vessel h id body = handle (do
  input ← of_result (decode body)
  v ← update h.store id (params_of input)
  pure (write_json 200 (vessel_reply (written_json h.store.runtime.floats v))))

-- DeleteVessel
unfoldable pub delete_vessel : Handlers → Uuid → Server → Response Reply × Server
delete_vessel h id = handle (do delete h.store id; pure (write_header 204))
