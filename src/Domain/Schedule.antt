-- ===== src/Domain/Schedule.antt =====
-- internal/domain/schedule.go: the dates of a batch's steps. A Day is the text of a date, whose
-- arithmetic (time.AddDate behind Day.Add of internal/domain/dates.go) is the parameter `add`.
pub mod Reflow
pub mod Once
pub mod Moves
pub mod Stamped
pub mod Totals
use cellarkeep_server.Prelude.{
  ℕ, String, Bool, true, false, Option, none, some, List, [], ◌∷◌, ◌++◌, select, sort_by, ℤ, pos,
  ltz, string_eq, ◌==◌, if◌then◌else◌,
}
use cellarkeep_server.Store.Model.{Uuid}

abbrev pub Day : Type 0
Day = String

abbrev pub Add : Type 0
Add = Day → ℤ → Day

abbrev pub anchor_start : String
anchor_start = "start"

-- StepInput, without its free-form data, which is passed on.
pub record StepInput : Type 0 where
  pub sort_index : ℤ
  pub type : String
  pub anchor : String
  pub offset_days : ℤ
  pub label : String

pub record StampedEvent : Type 0 where
  pub step : StepInput
  pub scheduled_date : Day

abbrev pub base_of : StepInput → Day → Day → Day
base_of s start chain = if s.anchor == anchor_start then start else chain

-- The loop of StampSchedule.
unfoldable pub stamp : Add → Day → Day → List StepInput → List StampedEvent
stamp add start chain [] = []
stamp add start chain (s ∷ ss) =
    let d = add (base_of s start chain) s.offset_days in
    record { step = s; scheduled_date = d } ∷ stamp add start d ss

-- StampSchedule
unfoldable pub stamp_schedule : Add → List StepInput → Day → List StampedEvent
unfolding stamp
stamp_schedule add steps start =
    stamp add start start (sort_by (λ a b. ltz a.sort_index b.sort_index) steps)

pub record ShiftableEvent : Type 0 where
  pub id : Uuid
  pub sort_index : ℤ
  pub status : String
  pub anchor : Option String
  pub offset_days : Option ℤ
  pub scheduled_date : Option Day
  pub completed_date : Option Day

pub record DateChange : Type 0 where
  pub id : Uuid
  pub scheduled_date : Day

abbrev pub day_or : Option Day → Day → Day
day_or none d = d
day_or (some e) d = e

abbrev pub offset_or_zero : Option ℤ → ℤ
offset_or_zero none = pos 0
offset_or_zero (some n) = n

-- `e.ScheduledDate == nil || *e.ScheduledDate != next`, turned around
abbrev pub is_on : Option Day → Day → Bool
is_on none next = false
is_on (some d) next = d == next

-- A planned event: the next chain and the changes.
unfoldable pub plan : Add → String → ShiftableEvent → Day → Day × List DateChange
plan add a e chain =
    if a == anchor_start
    then (day_or e.scheduled_date chain, [])
    else (let next = add chain (offset_or_zero e.offset_days) in
        (
          next,
          (if is_on e.scheduled_date next
              then []
              else record { id = e.id; scheduled_date = next } ∷ []),
        ))

-- An event with an anchor, by its status.
unfoldable pub advance_anchored : Add → String → ShiftableEvent → Day → Day × List DateChange
unfolding plan
advance_anchored add a e chain =
    if e.status == "done"
    then (day_or e.completed_date (day_or e.scheduled_date chain), [])
    else if e.status == "planned"
    then plan add a e chain
    else (chain, [])

-- One round of the loop of ShiftAfterCompletion.
unfoldable pub advance : Add → ShiftableEvent → Day → Day × List DateChange
unfolding advance_anchored
advance add e chain = elim e.anchor [ none ↦ (chain, []) | some a ↦ advance_anchored add a e chain ]

unfoldable pub reflow : Add → Day → List ShiftableEvent → List DateChange
unfolding advance
reflow add chain [] = []
reflow add chain (e ∷ es) =
    let (chain', changes) = advance add e chain in changes ++ reflow add chain' es

-- ShiftAfterCompletion
unfoldable pub shift_after_completion : Add → List ShiftableEvent → ℤ → Day → List DateChange
unfolding reflow
shift_after_completion add events completed_sort_index completed_date = reflow add completed_date (
    sort_by (λ a b. ltz a.sort_index b.sort_index)
      (select (λ e. ltz completed_sort_index e.sort_index) events))
