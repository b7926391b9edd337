-- ===== src/Domain/Dates/Calendar.antt =====
-- A day on and a day back undo each other on civil dates, and what AddDate makes of repeating them.
use cellarkeep_server.Prelude.{
  ℕ, zero, suc, ◌-◌, ◌≤◌, ◌<◌, true, ℤ, pos, negsuc, leb, nat_eq, ◌≡◌, refl, arith, ◌∙◌, ap, ◌⊎◌,
  inl, inr,
}
use cellarkeep_server.Domain.Dates.{
  Civil, civil, is_civil, days_in, next, previous, year_on, year_back,
}

year_back-year_on : (y : ℤ) → year_back (year_on y) ≡ y
year_back-year_on (pos n) = refl
year_back-year_on (negsuc zero) = refl
year_back-year_on (negsuc (suc n)) = refl

year_on-year_back : (y : ℤ) → year_on (year_back y) ≡ y
year_on-year_back (pos zero) = refl
year_on-year_back (pos (suc n)) = refl
year_on-year_back (negsuc n) = refl

days_in-december : (y : ℤ) → days_in y 12 ≡ 31
unfolding days_in
days_in-december y = refl

days_in_some : (y : ℤ) (m : ℕ) → leb 28 (days_in y m) ≡ true
unfolding days_in
days_in_some y m = ground arith

-- What the test of a date says, as facts.
parts :
    (c : Civil)
    → is_civil c ≡ true
    → (1 ≤ c.month) × (c.month ≤ 12) × (1 ≤ c.day) × (c.day ≤ days_in c.year c.month)
unfolding is_civil
parts c h = ground arith

civil_parts :
    (y : ℤ) (m d : ℕ) → 1 ≤ m → m ≤ 12 → 1 ≤ d → d ≤ days_in y m → is_civil (civil y m d) ≡ true
unfolding is_civil
civil_parts y m d a b c e = ground arith

pub next_day : (y : ℤ) (m d : ℕ) → d < days_in y m → next (civil y m d) ≡ civil y m (suc d)
unfolding next
next_day y m d h = ground arith

pub next_month :
    (y : ℤ) (m d : ℕ) → days_in y m ≤ d → m < 12 → next (civil y m d) ≡ civil y (suc m) 1
unfolding next
next_month y m d h k = ground arith

pub next_year :
    (y : ℤ) (m d : ℕ) → days_in y m ≤ d → 12 ≤ m → next (civil y m d) ≡ civil (year_on y) 1 1
unfolding next
next_year y m d h k = ground arith

previous_day : (y : ℤ) (m d : ℕ) → 1 < d → previous (civil y m d) ≡ civil y m (d - 1)
unfolding previous
previous_day y m d h = ground arith

previous_month :
    (y : ℤ) (m d : ℕ) → d ≤ 1 → 1 < m → previous (civil y m d) ≡ civil y (m - 1) (days_in y (m - 1))
unfolding previous
previous_month y m d h k = ground arith

previous_year :
    (y : ℤ) (m d : ℕ) → d ≤ 1 → m ≤ 1 → previous (civil y m d) ≡ civil (year_back y) 12 31
unfolding previous
previous_year y m d h k = ground arith

pub order : (a b : ℕ) → (a < b) ⊎ (b ≤ a)
order a b = ground arith

civil-eq : {y y' : ℤ} {m m' d d' : ℕ} → y ≡ y' → m ≡ m' → d ≡ d' → civil y m d ≡ civil y' m' d'
civil-eq {y' = y'} {m = m} {m' = m'} {d = d} p q r =
    ap (λ x. civil x m d) p ∙ ap (λ x. civil y' x d) q ∙ ap (civil y' m') r

first_day : (y : ℤ) (m : ℕ) → 1 ≤ m → m ≤ 12 → is_civil (civil y m 1) ≡ true
first_day y m h k =
    let some_day = days_in_some y m in civil_parts y m 1 h k (omega arith) (ground arith)

last_day : (y : ℤ) (m : ℕ) → 1 ≤ m → m ≤ 12 → is_civil (civil y m (days_in y m)) ≡ true
last_day y m h k =
    let some_day = days_in_some y m in civil_parts y m _ h k (ground arith) (omega arith)

unfoldable pub IsUndone : (Civil → Civil) → (Civil → Civil) → Civil → Type 0
IsUndone f g c = (is_civil (f c) ≡ true) × (g (f c) ≡ c)

undone :
    (f g : Civil → Civil) (c c' : Civil) → f c ≡ c' → is_civil c' ≡ true → g c' ≡ c → IsUndone f g c
unfolding IsUndone
undone f g c c' e v back = (ap is_civil e ∙ v, ap g e ∙ back)

-- The day after a date is a date, and the day before that is the date.
pub next-IsUndone : (c : Civil) → is_civil c ≡ true → IsUndone next previous c
next-IsUndone c h =
    let (m₁, m₂, d₁, d₂) = parts c h in
    let y = c.year in
    let m = c.month in
    let d = c.day in
    elim (order d (days_in y m)) [
      | inl less ↦
          undone next previous c _ (next_day y m d less)
            (civil_parts y m (suc d) m₁ m₂ (omega arith) (omega arith))
            (previous_day y m (suc d) (omega arith) ∙ civil-eq refl refl (omega arith))
      | inr last ↦ elim (order m 12) [
        | inl less ↦
            undone next previous c _ (next_month y m d last less)
              (first_day y (suc m) (omega arith) (omega arith))
              (previous_month y (suc m) 1 (omega arith) (omega arith)
                ∙ ap (λ x. civil y x (days_in y x)) (omega arith)
                ∙ civil-eq refl refl (omega arith))
        | inr full ↦
            let december : m ≡ 12 = omega arith in
            let long : days_in y m ≡ 31 = ap (days_in y) december ∙ days_in-december y in
            undone next previous c _ (next_year y m d last full)
              (first_day (year_on y) 1 (omega arith) (omega arith))
              (previous_year (year_on y) 1 1 (omega arith) (omega arith)
                ∙ civil-eq (year_back-year_on y) (omega arith) (omega arith))
      ]
    ]

-- The day before a date is a date, and the day after that is the date.
pub previous-IsUndone : (c : Civil) → is_civil c ≡ true → IsUndone previous next c
previous-IsUndone c h =
    let (m₁, m₂, d₁, d₂) = parts c h in
    let y = c.year in
    let m = c.month in
    let d = c.day in
    elim (order 1 d) [
      | inl more ↦
          undone previous next c _ (previous_day y m d more)
            (civil_parts y m (d - 1) m₁ m₂ (omega arith) (omega arith))
            (next_day y m (d - 1) (omega arith) ∙ civil-eq refl refl (omega arith))
      | inr first ↦ elim (order 1 m) [
        | inl more ↦
            undone previous next c _ (previous_month y m d first more)
              (last_day y (m - 1) (omega arith) (omega arith))
              (next_month y (m - 1) _ (omega arith) (omega arith)
                ∙ civil-eq refl (omega arith) (omega arith))
        | inr january ↦
            let long = days_in-december (year_back y) in
            undone previous next c _ (previous_year y m d first january)
              (civil_parts (year_back y) 12 31 (omega arith) (omega arith) (omega arith)
                (omega arith))
              (next_year (year_back y) 12 31 (omega arith) (omega arith)
                ∙ civil-eq (year_on-year_back y) (omega arith) (omega arith))
      ]
    ]
