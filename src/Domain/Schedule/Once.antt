-- ===== src/Domain/Schedule/Once.antt =====
-- ShiftAfterCompletion of internal/domain/schedule.go, run again on what it changed.
use cellarkeep_server.Prelude.{
  Bool, List, [], ◌∷◌, map, select, sort_by, insert_by, All, All-sort_by, All-select, All-insert_by,
  sort_by-map, select-map, ℤ, ltz, nat_eq, ◌==◌, ◌≡◌, ◌≢◌, refl, ap, sym, ◌∙◌, inl, inr, Bool-cases,
  Option, none, some, find,
}
use cellarkeep_server.Domain.Schedule.{
  Day, Add, ShiftableEvent, DateChange, reflow, shift_after_completion,
}
use cellarkeep_server.Domain.Schedule.Reflow.{with_date, apply, IsDistinct, reflow_again}

abbrev pub in_order : ShiftableEvent → ShiftableEvent → Bool
in_order a b = ltz a.sort_index b.sort_index

IsDistinct-insert_by :
    (e : ShiftableEvent) (es : List ShiftableEvent)
    → All (λ (x : ShiftableEvent). x.id ≢ e.id) es
    → IsDistinct es
    → IsDistinct (insert_by in_order e es)
IsDistinct-insert_by e [] apart d = (tt, tt)
IsDistinct-insert_by e (x ∷ xs) (ne, apart) (h, d) = elim (Bool-cases (in_order x e)) [
  | inl before ↦ rw before (
    All-insert_by (λ (y : ShiftableEvent). y.id ≢ x.id) in_order e xs (λ q. ne (sym q)) h,
    IsDistinct-insert_by e xs apart d,
  )
  | inr behind ↦ rw behind ((ne, apart), (h, d))
]

IsDistinct-sort_by : (es : List ShiftableEvent) → IsDistinct es → IsDistinct (sort_by in_order es)
IsDistinct-sort_by [] d = tt
IsDistinct-sort_by (e ∷ es) (apart, d) =
    IsDistinct-insert_by e (sort_by in_order es) (All-sort_by _ in_order es apart)
      (IsDistinct-sort_by es d)

IsDistinct-select :
    (p : ShiftableEvent → Bool) (es : List ShiftableEvent)
    → IsDistinct es
    → IsDistinct (select p es)
IsDistinct-select p [] d = tt
IsDistinct-select p (e ∷ es) (apart, d) = elim (Bool-cases (p e)) [
  | inl kept ↦ rw kept (All-select _ p es apart, IsDistinct-select p es d)
  | inr left ↦ rw left (IsDistinct-select p es d)
]

sort_index-apply :
    (cs : List DateChange) (e : ShiftableEvent) → (apply cs e).sort_index ≡ e.sort_index
sort_index-apply cs e = sort_index-with_date (find (λ (c : DateChange). c.id == e.id) cs)
  where
    sort_index-with_date : (o : Option DateChange) → (with_date o e).sort_index ≡ e.sort_index
    sort_index-with_date none = refl
    sort_index-with_date (some c) = refl

-- Once the changes of ShiftAfterCompletion are made to events with distinct ids, running it again for
-- the same completion changes nothing.
pub shift_once :
    (add : Add) (events : List ShiftableEvent) (completed : ℤ) (date : Day)
    → IsDistinct events
    → shift_after_completion add
        (map (apply (shift_after_completion add events completed date)) events)
        completed
        date
      ≡ []
unfolding shift_after_completion
shift_once add events completed date d =
    let later : ShiftableEvent → Bool = λ e. ltz completed e.sort_index in
    let downstream = sort_by in_order (select later events) in
    let f = apply (reflow add date downstream) in
    let kept : (x : ShiftableEvent) → later (f x) ≡ later x =
      λ x. ap (ltz completed) (sort_index-apply (reflow add date downstream) x) in
    ap (λ es. reflow add date (sort_by in_order es)) (select-map f later kept events)
    ∙ ap (reflow add date) (
        sort_by-map f in_order
          (λ x y.
            ap (λ i. ltz i (f y).sort_index) (sort_index-apply (reflow add date downstream) x)
            ∙ ap (ltz x.sort_index) (sort_index-apply (reflow add date downstream) y))
          (select later events))
    ∙ reflow_again add date downstream
        (IsDistinct-sort_by (select later events) (IsDistinct-select later events d))
