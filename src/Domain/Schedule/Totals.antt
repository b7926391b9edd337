-- ===== src/Domain/Schedule/Totals.antt =====
-- StampSchedule with the dates of internal/domain/dates.go: how far from the start each step falls.
use cellarkeep_server.Prelude.{
  List, [], ◌∷◌, map, All, ℤ, pos, ◌+ℤ◌, ltz, sort_by, string_eq, ◌==◌, if◌then◌else◌, ◌≡◌, refl,
  sym, ◌∙◌, ap, inl, inr, Bool-cases,
}
use cellarkeep_server.Domain.Schedule.{
  StepInput, StampedEvent, anchor_start, base_of, stamp, stamp_schedule,
}
use cellarkeep_server.Domain.Dates.{Civil, add_date, day_of, add}
use cellarkeep_server.Domain.Dates.Text.{IsWritten, time-day_of}
use cellarkeep_server.Domain.Dates.Sum.{add_sum}

-- A step's days from the start, when the step before it is t days from the start.
abbrev pub total : ℤ → StepInput → ℤ
total t s = if s.anchor == anchor_start then s.offset_days else t +ℤ s.offset_days

abbrev pub totals : ℤ → List StepInput → List (StepInput × ℤ)
totals t [] = []
totals t (s ∷ ss) = (s, total t s) ∷ totals (total t s) ss

abbrev pub dated : Civil → StepInput × ℤ → StampedEvent
dated c (s, t) = record { step = s; scheduled_date = add (day_of c) t }

-- The step's date is one of a year of four digits.
abbrev pub Falls : Civil → StepInput × ℤ → Type 0
Falls c (s, t) = IsWritten (add_date c t)

next_date :
    (c : Civil) (t : ℤ) (s : StepInput)
    → IsWritten c
    → IsWritten (add_date c t)
    → add (base_of s (day_of c) (add (day_of c) t)) s.offset_days ≡ add (day_of c) (total t s)
next_date c t s h h' = elim (Bool-cases (s.anchor == anchor_start)) [
  | inl start ↦ rw (start, if◌then◌else◌) refl
  | inr chained ↦ rw (chained, if◌then◌else◌) (add_sum c t s.offset_days h h')
]

stamp-totals :
    (c : Civil) (t : ℤ) (ss : List StepInput)
    → IsWritten c
    → IsWritten (add_date c t)
    → All (Falls c) (totals t ss)
    → stamp add (day_of c) (add (day_of c) t) ss ≡ map (dated c) (totals t ss)
unfolding stamp
stamp-totals c t [] h h' falls = refl
stamp-totals c t (s ∷ ss) h h' (f, falls) =
    rw (next_date c t s h h')
      (ap (λ x. dated c (s, total t s) ∷ x) (stamp-totals c (total t s) ss h f falls))

add_none : (c : Civil) → IsWritten c → add (day_of c) (pos 0) ≡ day_of c
unfolding add add_date
add_none c h = ap day_of (time-day_of c h)

-- The steps as StampSchedule goes through them.
abbrev pub by_sort_index : List StepInput → List StepInput
by_sort_index steps = sort_by (λ a b. ltz a.sort_index b.sort_index) steps

-- StampSchedule gives each step, in the order of the indices, the date that lies so many days after the
-- start: the step's own offset if it is anchored at the start, else its offset more than the step before it;
-- as long as the start and every one of these dates has a year of four digits.
pub stamp_schedule-totals :
    (c : Civil) (steps : List StepInput)
    → IsWritten c
    → All (Falls c) (totals (pos 0) (by_sort_index steps))
    → stamp_schedule add steps (day_of c) ≡ map (dated c) (totals (pos 0) (by_sort_index steps))
unfolding stamp_schedule add_date
stamp_schedule-totals c steps h falls =
    ap (λ d. stamp add (day_of c) d (by_sort_index steps)) (sym (add_none c h))
    ∙ stamp-totals c (pos 0) (by_sort_index steps) h h falls
