-- ===== src/Domain/Dates/Later.antt =====
-- Adding more days gives a later date.
use cellarkeep_server.Prelude.{
  ℕ, zero, suc, ◌+◌, ◌-◌, true, false, ℤ, pos, negsuc, difference, ◌+ℤ◌, ltz, ltb, nat_eq, ◌≡◌,
  refl, arith, sym, ◌∙◌, ap, ◌⊎◌, inl, inr, subst, Bool-cases,
}
use cellarkeep_server.Domain.Dates.{
  Civil, is_civil, next, days_in, year_on, repeat, add_date, day_of, is_before, add,
}
use cellarkeep_server.Domain.Dates.Calendar.{order, next_day, next_month, next_year}
use cellarkeep_server.Domain.Dates.Order.{earlier, if_less, is_before-earlier}
use cellarkeep_server.Domain.Dates.Text.{IsWritten, IsWritten-is_civil, time-day_of}
use cellarkeep_server.Domain.Dates.Sum.{add_date_sum}

ltz_irrefl : (y : ℤ) → ltz y y ≡ false
ltz_irrefl (pos n) = ground arith
ltz_irrefl (negsuc n) = ground arith

ltz-year_on : (y : ℤ) → ltz y (year_on y) ≡ true
ltz-year_on (pos n) = ground arith
ltz-year_on (negsuc zero) = refl
ltz-year_on (negsuc (suc n)) = ground arith

ltz_trans : (x y z : ℤ) → ltz x y ≡ true → ltz y z ≡ true → ltz x z ≡ true
ltz_trans (pos a) (pos b) (pos c) h k = ground arith
ltz_trans (negsuc a) (pos b) (pos c) h k = refl
ltz_trans (negsuc a) (negsuc b) (pos c) h k = refl
ltz_trans (negsuc a) (negsuc b) (negsuc c) h k = ground arith
ltz_trans (pos a) (pos b) (negsuc c) h k = ground arith
ltz_trans (pos a) (negsuc b) z h k = ground arith
ltz_trans (negsuc a) (pos b) (negsuc c) h k = ground arith

-- Years that neither comes before the other are the same.
ltz_connex : (x y : ℤ) → ltz x y ≡ false → ltz y x ≡ false → x ≡ y
ltz_connex (pos a) (pos b) h k = let e : a ≡ b = ground arith in ap pos e
ltz_connex (negsuc a) (negsuc b) h k = let e : a ≡ b = ground arith in ap negsuc e
ltz_connex (pos a) (negsuc b) h k = ground arith
ltz_connex (negsuc a) (pos b) h k = ground arith

earlier_irrefl : (c : Civil) → earlier c c ≡ false
unfolding earlier
earlier_irrefl c = let e = ltz_irrefl c.year in ground arith

earlier_by_year : (c d : Civil) → ltz c.year d.year ≡ true → earlier c d ≡ true
unfolding earlier
earlier_by_year c d h = ground arith

within_year :
    (c d : Civil)
    → c.year ≡ d.year
    → if_less c.month d.month (ltb c.day d.day) ≡ true
    → earlier c d ≡ true
unfolding earlier
within_year c d e h = let n = ltz_irrefl d.year in rw (e, n) h

next-later : (c : Civil) → earlier c (next c) ≡ true
next-later c = elim (order c.day (days_in c.year c.month)) [
  | inl less ↦ rw (next_day c.year c.month c.day less) (within_year c _ refl (ground arith))
  | inr last ↦ elim (order c.month 12) [
    | inl less ↦
        rw (next_month c.year c.month c.day last less) (within_year c _ refl (ground arith))
    | inr full ↦
        rw (next_year c.year c.month c.day last full) (earlier_by_year c _ (ltz-year_on c.year))
  ]
]

earlier_cases :
    (c d : Civil)
    → earlier c d ≡ true
    → (ltz c.year d.year ≡ true)
      ⊎ ((c.year ≡ d.year) × (if_less c.month d.month (ltb c.day d.day) ≡ true))
unfolding earlier
earlier_cases c d h = elim (Bool-cases (ltz c.year d.year)) [
  | inl less ↦ inl less
  | inr not_less ↦ elim (Bool-cases (ltz d.year c.year)) [
    | inl more ↦ absurd (ground arith)
    | inr not_more ↦ inr (ltz_connex c.year d.year not_less not_more, ground arith)
  ]
]

if_less_trans :
    (a b c : ℕ) (x y z : ℕ)
    → if_less a b (ltb x y) ≡ true
    → if_less b c (ltb y z) ≡ true
    → if_less a c (ltb x z) ≡ true
if_less_trans a b c x y z h k = ground arith

earlier_trans : (a b c : Civil) → earlier a b ≡ true → earlier b c ≡ true → earlier a c ≡ true
earlier_trans a b c h k = elim (earlier_cases a b h) [
  | inl y ↦ elim (earlier_cases b c k) [
    | inl z ↦ earlier_by_year a c (ltz_trans a.year b.year c.year y z)
    | inr (e, m) ↦ earlier_by_year a c (subst (λ x. ltz a.year x ≡ true) e y)
  ]
  | inr (e, m) ↦ elim (earlier_cases b c k) [
    | inl z ↦ earlier_by_year a c (subst (λ x. ltz x c.year ≡ true) (sym e) z)
    | inr (e', m') ↦ within_year a c (e ∙ e') (if_less_trans a.month b.month c.month _ _ _ m m')
  ]
]

earlier_asym : (a b : Civil) → earlier a b ≡ true → earlier b a ≡ false
earlier_asym a b h = elim (Bool-cases (earlier b a)) [
  | inl k ↦ absurd (let e = earlier_trans a b a h k in let f = earlier_irrefl a in ground arith)
  | inr k ↦ k
]

repeat_later : (n : ℕ) (c : Civil) → earlier c (repeat next (suc n) c) ≡ true
repeat_later zero c = next-later c
repeat_later (suc n) c = earlier_trans c (next c) _ (next-later c) (repeat_later n (next c))

difference_above : (n a b : ℕ) → n ≡ a + b → difference n a ≡ pos b
difference_above n zero b e = let same : n ≡ b = omega arith in ap pos same
difference_above zero (suc a) b e = absurd (omega arith)
difference_above (suc n) (suc a) b e = difference_above n a b (omega arith)

difference_below : (k a b : ℕ) → a ≡ k + b → difference k (suc a) ≡ negsuc b
difference_below zero a b e = let same : a ≡ b = omega arith in ap negsuc same
difference_below (suc k) zero b e = absurd (omega arith)
difference_below (suc k) (suc a) b e = difference_below k a b (omega arith)

-- How much larger the larger of two numbers of days is.
excess : (m n : ℤ) → ltz m n ≡ true → (k : ℕ) × (n ≡ m +ℤ pos (suc k))
excess (pos a) (pos b) h = let e : b ≡ a + suc (b - a - 1) = ground arith in (b - a - 1, ap pos e)
excess (pos a) (negsuc b) h = ground arith
excess (negsuc a) (pos b) h = (a + b, sym (difference_above (a + b) a b refl))
excess (negsuc zero) (negsuc b) h = absurd (ground arith)
excess (negsuc (suc a)) (negsuc b) h = (a - b, sym (difference_below (a - b) a b (ground arith)))

add_date-later :
    (c : Civil) (m n : ℤ)
    → is_civil c ≡ true
    → ltz m n ≡ true
    → earlier (add_date c m) (add_date c n) ≡ true
unfolding add_date
add_date-later c m n ok h =
    let (k, e) = excess m n h in
    subst (λ x. earlier (add_date c m) x ≡ true)
      (add_date_sum c m (pos (suc k)) ok ∙ ap (add_date c) (sym e)) (repeat_later k (add_date c m))

earlier-add_date :
    (c : Civil) (m n : ℤ) → is_civil c ≡ true → earlier (add_date c m) (add_date c n) ≡ ltz m n
earlier-add_date c m n ok = elim (Bool-cases (ltz m n)) [
  | inl less ↦ add_date-later c m n ok less ∙ sym less
  | inr not_less ↦ elim (Bool-cases (ltz n m)) [
    | inl more ↦ earlier_asym _ _ (add_date-later c n m ok more) ∙ sym not_less
    | inr not_more ↦
        subst (λ x. earlier (add_date c m) (add_date c x) ≡ false)
          (ltz_connex m n not_less not_more) (earlier_irrefl (add_date c m))
        ∙ sym not_less
  ]
]

-- Of two dates that are so many days from a date, each count of days negative, 0 or positive, Before holds
-- exactly if the first count is smaller, as long as the three dates have years of four digits.
pub is_before-add :
    (c : Civil) (m n : ℤ)
    → IsWritten c
    → IsWritten (add_date c m)
    → IsWritten (add_date c n)
    → is_before (add (day_of c) m) (add (day_of c) n) ≡ ltz m n
unfolding add
is_before-add c m n h hm hn =
    ap (λ x. is_before (day_of (add_date x m)) (day_of (add_date x n))) (time-day_of c h)
    ∙ is_before-earlier (add_date c m) (add_date c n) hm hn
    ∙ earlier-add_date c m n (IsWritten-is_civil c h)
