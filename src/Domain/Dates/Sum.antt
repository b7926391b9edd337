-- ===== src/Domain/Dates/Sum.antt =====
-- Day.Add, twice.
use cellarkeep_server.Prelude.{
  ℕ, zero, suc, ◌+◌, true, ℤ, pos, negsuc, difference, ◌+ℤ◌, ◌≡◌, refl, arith, sym, ◌∙◌, ap,
}
use cellarkeep_server.Domain.Dates.{
  Civil, is_civil, next, previous, add_date, repeat, day_of, time, add,
}
use cellarkeep_server.Domain.Dates.Calendar.{IsUndone, next-IsUndone, previous-IsUndone}
use cellarkeep_server.Domain.Dates.Text.{IsWritten, IsWritten-is_civil, time-day_of}

repeat_last {ℓ} : {A : Type ℓ} (f : A → A) (n : ℕ) (x : A) → repeat f n (f x) ≡ f (repeat f n x)
repeat_last f zero x = refl
repeat_last f (suc n) x = repeat_last f n (f x)

repeat_sum {ℓ} :
    {A : Type ℓ} (f : A → A) (m n k : ℕ) (x : A)
    → m + n ≡ k
    → repeat f n (repeat f m x) ≡ repeat f k x
repeat_sum f zero n k x e = let same : n ≡ k = omega arith in ap (λ i. repeat f i x) same
repeat_sum f (suc m) n zero x e = absurd (omega arith)
repeat_sum f (suc m) n (suc k) x e = repeat_sum f m n k (f x) (omega arith)

module _ (f g : Civil → Civil) (inverse : (c : Civil) → is_civil c ≡ true → IsUndone f g c) where
  pub repeat-is_civil : (n : ℕ) (c : Civil) → is_civil c ≡ true → is_civil (repeat f n c) ≡ true
  unfolding IsUndone
  repeat-is_civil zero c h = h
  repeat-is_civil (suc n) c h = repeat-is_civil n (f c) (inverse c h).0

  cancel :
      (m n : ℕ) (c : Civil)
      → is_civil c ≡ true
      → repeat g (suc n) (repeat f (suc m) c) ≡ repeat g n (repeat f m c)
  unfolding IsUndone
  cancel m n c h =
      ap (λ x. repeat g n (g x)) (repeat_last f m c)
      ∙ ap (repeat g n) (inverse _ (repeat-is_civil m c h)).1

pub add_date-is_civil : (c : Civil) (n : ℤ) → is_civil c ≡ true → is_civil (add_date c n) ≡ true
unfolding add_date
add_date-is_civil c (pos n) h = repeat-is_civil next previous next-IsUndone n c h
add_date-is_civil c (negsuc n) h = repeat-is_civil previous next previous-IsUndone (suc n) c h

on_and_back :
    (a b : ℕ) (c : Civil)
    → is_civil c ≡ true
    → repeat previous b (repeat next a c) ≡ add_date c (difference a b)
unfolding add_date
on_and_back a zero c h = refl
on_and_back zero (suc b) c h = refl
on_and_back (suc a) (suc b) c h = cancel next previous next-IsUndone a b c h ∙ on_and_back a b c h

back_and_on :
    (a b : ℕ) (c : Civil)
    → is_civil c ≡ true
    → repeat next b (repeat previous a c) ≡ add_date c (difference b a)
unfolding add_date
back_and_on zero b c h = refl
back_and_on (suc a) zero c h = refl
back_and_on (suc a) (suc b) c h =
    cancel previous next previous-IsUndone a b c h ∙ back_and_on a b c h

pub add_date_sum :
    (c : Civil) (m n : ℤ) → is_civil c ≡ true → add_date (add_date c m) n ≡ add_date c (m +ℤ n)
unfolding add_date
add_date_sum c (pos a) (pos b) h = repeat_sum next a b (a + b) c refl
add_date_sum c (pos a) (negsuc b) h = on_and_back a (suc b) c h
add_date_sum c (negsuc a) (pos b) h = back_and_on (suc a) b c h
add_date_sum c (negsuc a) (negsuc b) h =
    repeat_sum previous (suc a) (suc b) (suc (suc (a + b))) c (omega arith)

-- Moving a date on by m days and then by n days, each a count that may be negative, is moving it by their
-- sum, as long as the date in between has a year of four digits.
pub add_sum :
    (c : Civil) (m n : ℤ)
    → IsWritten c
    → IsWritten (add_date c m)
    → add (add (day_of c) m) n ≡ add (day_of c) (m +ℤ n)
unfolding add
add_sum c m n h between =
    ap (λ x. day_of (add_date (time (day_of (add_date x m))) n)) (time-day_of c h)
    ∙ ap (λ x. day_of (add_date x n)) (time-day_of _ between)
    ∙ ap day_of (add_date_sum c m n (IsWritten-is_civil c h))
    ∙ ap (λ x. day_of (add_date x (m +ℤ n))) (sym (time-day_of c h))
