-- ===== src/Tests/Schedule.antt =====
-- Witnesses for the schedule.
use cellarkeep_server.Prelude.{All, some, none, List, [], ◌∷◌, map, pos, ◌≡◌, arith}
use cellarkeep_server.Domain.Schedule.{ShiftableEvent, shift_after_completion, anchor_start}
use cellarkeep_server.Domain.Schedule.Reflow.{apply}
use cellarkeep_server.Domain.Dates.{add}
use cellarkeep_server.Domain.Schedule.Moves.{Moves, shift_after_completion-Moves}
use cellarkeep_server.Domain.Schedule.Once.{shift_once}

-- A planned step after the completed one, with the date that it had.
abbrev events1 : List ShiftableEvent
events1 =
    record {
      id = 1;
      sort_index = pos 1;
      status = "done";
      anchor = some anchor_start;
      offset_days = some (pos 0);
      scheduled_date = some "2026-01-01";
      completed_date = some "2026-01-03";
    }
    ∷ record {
      id = 2;
      sort_index = pos 2;
      status = "planned";
      anchor = some "previous";
      offset_days = some (pos 7);
      scheduled_date = some "2026-01-08";
      completed_date = none;
    }
    ∷ []

shift_once_example :
    shift_after_completion add
      (map (apply (shift_after_completion add events1 (pos 1) "2026-01-03")) events1)
      (pos 1)
      "2026-01-03"
    ≡ []
shift_once_example =
    shift_once add events1 (pos 1) "2026-01-03" (((λ e. ground arith), tt), (tt, tt))

shift_after_completion-Moves_example :
    All (Moves (pos 1) events1) (shift_after_completion add events1 (pos 1) "2026-01-03")
shift_after_completion-Moves_example = shift_after_completion-Moves add events1 (pos 1) "2026-01-03"
