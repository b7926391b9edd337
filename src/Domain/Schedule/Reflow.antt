-- ===== src/Domain/Schedule/Reflow.antt =====
-- The loop of ShiftAfterCompletion of internal/domain/schedule.go: what a round does to an event.
use cellarkeep_server.Prelude.{
  String, true, false, Option, none, some, List, [], ◌∷◌, ◌++◌, map, find, All, nat_eq, string_eq,
  ◌==◌, ◌≡◌, ◌≢◌, ◌⊎◌, refl, ap, sym, ◌∙◌, arith, inl, inr, Bool-cases, Option-cases, eq_iff, subst,
}
use text.Mathlib.TextPositions.{eq_refl}
use cellarkeep_server.Store.Model.{Uuid}
use cellarkeep_server.Domain.Schedule.{
  Day, Add, ShiftableEvent, DateChange, anchor_start, offset_or_zero, is_on, plan, advance_anchored,
  advance, reflow,
}

abbrev pub with_date : Option DateChange → ShiftableEvent → ShiftableEvent
with_date none e = e
with_date (some c) e = record e { scheduled_date = some c.scheduled_date }

-- The event after the changes: a change gives the event with its id a new date.
abbrev pub apply : List DateChange → ShiftableEvent → ShiftableEvent
apply cs e = with_date (find (λ (c : DateChange). c.id == e.id) cs) e

-- No event of a list has the id of another.
abbrev pub IsDistinct : List ShiftableEvent → Type 0
IsDistinct [] = Unit
IsDistinct (e ∷ es) = All (λ (x : ShiftableEvent). x.id ≢ e.id) es × IsDistinct es

-- What a change is for: a planned event of the list that is not anchored at the start, and that is not
-- on the date of the change.
abbrev pub IsMove : ShiftableEvent → DateChange → Type 0
IsMove e c =
    (c.id ≡ e.id)
    × (e.status ≡ "planned")
    × ((a : String) × (e.anchor ≡ some a) × (a ≢ anchor_start))
    × (is_on e.scheduled_date c.scheduled_date ≡ false)

abbrev pub dated : Day → ShiftableEvent → ShiftableEvent
dated d e = record e { scheduled_date = some d }

plan_cases :
    (add : Add) (a : String) (e : ShiftableEvent) (chain : Day)
    → ((plan add a e chain).1 ≡ [])
      ⊎ ((c : DateChange) × ((plan add a e chain).1 ≡ c ∷ [])
          × (c.id ≡ e.id)
          × (a ≢ anchor_start)
          × (is_on e.scheduled_date c.scheduled_date ≡ false)
          × (plan add a (dated c.scheduled_date e) chain ≡ ((plan add a e chain).0, [])))
unfolding plan
plan_cases add a e chain =
    let next = add chain (offset_or_zero e.offset_days) in
    elim (Bool-cases (a == anchor_start)) [
      | inl first ↦ rw first (inl refl)
      | inr later ↦ elim (Bool-cases (is_on e.scheduled_date next)) [
        | inl on ↦ rw (later, on) (inl refl)
        | inr off ↦
            rw (later, off)
              (inr (
                record { id = e.id; scheduled_date = next },
                refl,
                refl,
                ground (arith, eq_iff a anchor_start),
                off,
                rw (eq_refl next) refl,
              ))
      ]
    ]

-- The round of an event makes no change, or one that moves it, after which it makes none and goes on
-- with the same chain.
pub advance_cases :
    (add : Add) (e : ShiftableEvent) (chain : Day)
    → ((advance add e chain).1 ≡ [])
      ⊎ ((c : DateChange) × ((advance add e chain).1 ≡ c ∷ [])
          × IsMove e c
          × (advance add (dated c.scheduled_date e) chain ≡ ((advance add e chain).0, [])))
unfolding advance advance_anchored
advance_cases add e chain = elim (Option-cases e.anchor) [
  | inl free ↦ inl (simp (free, advance) refl)
  | inr (a, anchored) ↦ elim (Bool-cases (e.status == "done")) [
    | inl done ↦ inl (simp (anchored, advance, done) refl)
    | inr not_done ↦ elim (Bool-cases (e.status == "planned")) [
      | inr other ↦ inl (simp (anchored, advance, not_done, other) refl)
      | inl planned ↦ elim (plan_cases add a e chain) [
        | inl none_moved ↦ inl (simp (anchored, advance, not_done, planned) none_moved)
        | inr (c, moved, id, ne, off, again) ↦ inr (
          c,
          simp (anchored, advance, not_done, planned) moved,
          (id, (eq_iff e.status "planned").0 planned, (a, anchored, ne), off),
          simp (anchored, advance, not_done, planned) again,
        )
      ]
    ]
  ]
]

module _ (add : Add) where
  find-reflow :
      (k : Uuid) (chain : Day) (es : List ShiftableEvent)
      → All (λ (x : ShiftableEvent). x.id ≢ k) es
      → find (λ (c : DateChange). c.id == k) (reflow add chain es) ≡ none
  unfolding reflow
  find-reflow k chain [] h = refl
  find-reflow k chain (e ∷ es) (ne, h) = elim (advance_cases add e chain) [
    | inl still ↦ rw still (find-reflow k (advance add e chain).0 es h)
    | inr (c, moved, (id, _, _, _), _) ↦
        rw moved (ground (arith, find-reflow k (advance add e chain).0 es h))
  ]

  -- A change of another event does not matter.
  map-apply :
      (c : DateChange) (cs : List DateChange) (es : List ShiftableEvent)
      → All (λ (x : ShiftableEvent). x.id ≢ c.id) es
      → map (apply (c ∷ cs)) es ≡ map (apply cs) es
  map-apply c cs [] h = refl
  map-apply c cs (e ∷ es) (ne, h) =
      let other : (c.id == e.id) ≡ false = ground arith in rw (other, map-apply c cs es h) refl

  reflow_step :
      (chain chain' : Day) (e e' : ShiftableEvent) (es : List ShiftableEvent)
      (cs rest : List DateChange)
      → apply cs e ≡ e'
      → advance add e' chain ≡ (chain', [])
      → map (apply cs) es ≡ map (apply rest) es
      → reflow add chain' (map (apply rest) es) ≡ []
      → reflow add chain (map (apply cs) (e ∷ es)) ≡ []
  unfolding reflow
  reflow_step chain chain' e e' es cs rest here round later ih =
      ap (λ x. (advance add x chain).1 ++ reflow add (advance add x chain).0 (map (apply cs) es))
        here
      ∙ ap (λ (x : Day × List DateChange). x.1 ++ reflow add x.0 (map (apply cs) es)) round
      ∙ ap (reflow add chain') later
      ∙ ih

  -- What is moved once is not moved again.
  pub reflow_again :
      (chain : Day) (es : List ShiftableEvent)
      → IsDistinct es
      → reflow add chain (map (apply (reflow add chain es)) es) ≡ []
  unfolding reflow
  reflow_again chain [] d = refl
  reflow_again chain (e ∷ es) (apart, d) =
      let chain' = (advance add e chain).0 in
      let rest = reflow add chain' es in
      let ih = reflow_again chain' es d in
      elim (advance_cases add e chain) [
        | inl still ↦
            subst (λ cs. reflow add chain (map (apply cs) (e ∷ es)) ≡ [])
              (sym (ap (λ x. x ++ rest) still))
              (reflow_step chain chain' e e es rest rest
                (ap (λ o. with_date o e) (find-reflow e.id chain' es apart))
                (ap (λ x. (chain', x)) still) refl ih)
        | inr (c, moved, (id, _, _, _), again) ↦
            let same : (c.id == e.id) ≡ true = ground arith in
            subst (λ cs. reflow add chain (map (apply cs) (e ∷ es)) ≡ [])
              (sym (ap (λ x. x ++ rest) moved))
              (reflow_step chain chain' e (dated c.scheduled_date e) es (c ∷ rest) rest
                (rw same refl) again
                (map-apply c rest es
                  (subst (λ k. All (λ (x : ShiftableEvent). x.id ≢ k) es) (sym id) apart))
                ih)
      ]
