-- ===== src/Domain/Schedule/Moves.antt =====
-- Which events ShiftAfterCompletion of internal/domain/schedule.go moves.
use cellarkeep_server.Prelude.{
  true, List, [], ◌∷◌, select, All, All-sort_by, ℤ, ltz, ◌≡◌, ◌⊎◌, inl, inr, Bool-cases,
}
use cellarkeep_server.Domain.Schedule.{
  Day, Add, ShiftableEvent, DateChange, advance, reflow, shift_after_completion,
}
use cellarkeep_server.Domain.Schedule.Reflow.{IsMove, advance_cases}

-- The change moves one of the events, which stands behind the completed one.
abbrev pub Moves : ℤ → List ShiftableEvent → DateChange → Type 0
Moves completed [] c = ⊥
Moves completed (e ∷ es) c =
    ((ltz completed e.sort_index ≡ true) × IsMove e c) ⊎ Moves completed es c

abbrev Covers : (DateChange → Type 0) → ShiftableEvent → Type 0
Covers Q e = (c : DateChange) → IsMove e c → Q c

All-reflow :
    (Q : DateChange → Type 0) (add : Add) (chain : Day) (es : List ShiftableEvent)
    → All (Covers Q) es
    → All Q (reflow add chain es)
unfolding reflow
All-reflow Q add chain [] h = tt
All-reflow Q add chain (e ∷ es) (q, h) =
    let rest = All-reflow Q add (advance add e chain).0 es h in
    elim (advance_cases add e chain) [
      | inl still ↦ rw still rest
      | inr (c, moved, move, _) ↦ rw moved (q c move, rest)
    ]

All-select_later :
    (Q : DateChange → Type 0) (completed : ℤ) (es : List ShiftableEvent)
    → ((c : DateChange) → Moves completed es c → Q c)
    → All (Covers Q) (select (λ (e : ShiftableEvent). ltz completed e.sort_index) es)
All-select_later Q completed [] q = tt
All-select_later Q completed (e ∷ es) q =
    let rest = All-select_later Q completed es (λ c m. q c (inr m)) in
    elim (Bool-cases (ltz completed e.sort_index)) [
      | inl later ↦ rw later ((λ c m. q c (inl (later, m))), rest)
      | inr done ↦ rw done rest
    ]

-- Every change of ShiftAfterCompletion is for one of the events, which stands behind the completed one,
-- is planned, has an anchor other than the start, and is not on the date of the change.
pub shift_after_completion-Moves :
    (add : Add) (events : List ShiftableEvent) (completed : ℤ) (date : Day)
    → All (Moves completed events) (shift_after_completion add events completed date)
unfolding shift_after_completion
shift_after_completion-Moves add events completed date =
    All-reflow (Moves completed events) add date _ (
      All-sort_by (Covers (Moves completed events)) _ _
        (All-select_later (Moves completed events) completed events (λ c m. m)))
