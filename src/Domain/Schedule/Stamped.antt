-- ===== src/Domain/Schedule/Stamped.antt =====
-- StampSchedule of internal/domain/schedule.go under a change of the start.
use cellarkeep_server.Prelude.{
  List, [], ◌∷◌, map, ℤ, string_eq, ◌==◌, ◌≡◌, refl, inl, inr, Bool-cases,
}
use cellarkeep_server.Domain.Schedule.{
  Day, Add, StepInput, StampedEvent, base_of, anchor_start, stamp, stamp_schedule,
}

abbrev pub moved_by : Add → ℤ → StampedEvent → StampedEvent
moved_by add k e = record { step = e.step; scheduled_date = add e.scheduled_date k }

module _ (add : Add) (k : ℤ) (swap : (d : Day) (a b : ℤ) → add (add d a) b ≡ add (add d b) a) where
  base_of-add :
      (s : StepInput) (start chain : Day)
      → base_of s (add start k) (add chain k) ≡ add (base_of s start chain) k
  base_of-add s start chain = elim (Bool-cases (s.anchor == anchor_start)) [
    | inl first ↦ rw first refl
    | inr later ↦ rw later refl
  ]

  stamp-add :
      (start chain : Day) (ss : List StepInput)
      → stamp add (add start k) (add chain k) ss ≡ map (moved_by add k) (stamp add start chain ss)
  unfolding stamp
  stamp-add start chain [] = refl
  stamp-add start chain (s ∷ ss) =
      rw (base_of-add s start chain, swap (base_of s start chain) k s.offset_days)
        (rw (stamp-add start (add (base_of s start chain) s.offset_days) ss) refl)

-- For a calendar on which two offsets can be added in either order, moving the start of a batch by some
-- days moves the date of every step by as many days, and changes nothing else.
pub stamp_schedule-add :
    (add : Add) (k : ℤ)
    → ((d : Day) (a b : ℤ) → add (add d a) b ≡ add (add d b) a)
    → (steps : List StepInput) (start : Day)
    → stamp_schedule add steps (add start k) ≡ map (moved_by add k) (stamp_schedule add steps start)
unfolding stamp_schedule
stamp_schedule-add add k swap steps start = stamp-add add k swap start start _
