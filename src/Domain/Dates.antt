-- ===== src/Domain/Dates.antt =====
-- internal/domain/dates.go: a Day is the text of a calendar date. Of package time: a civil date of the
-- proleptic Gregorian calendar, one day on and one day back, which AddDate repeats, and the layout 2006-01-02,
-- read and written. A year before 0 or after 9999 is written as Format does, with a sign or more digits.
-- A number of days is not bounded: the distance of two years of four digits is below 2 ^ 22.
pub mod Calendar
pub mod Text
pub mod Order
pub mod Sum
pub mod Later
pub mod Parsing
use Prim.Native.Char.{Char, code}
use Prim.Native.String
use cellarkeep_server.Prelude.{
  ℕ, zero, suc, ◌+◌, ◌-◌, ◌*◌, ◌/◌, ◌%◌, String, Bool, true, false, not, ◌&&◌, ◌||◌, Option, none,
  some, ℤ, pos, negsuc, ltb, leb, is_some, nat_eq, ◌==◌, if◌then◌else◌,
}
use cellarkeep_server.Prelude.Text.{before}
use cellarkeep_server.Domain.Schedule.{Day}

pub record Civil : Type 0 where
  pub year : ℤ
  pub month : ℕ
  pub day : ℕ

abbrev pub civil : ℤ → ℕ → ℕ → Civil
civil y m d = record { year = y; month = m; day = d }

abbrev pub year_on : ℤ → ℤ
year_on (pos n) = pos (suc n)
year_on (negsuc zero) = pos zero
year_on (negsuc (suc n)) = negsuc n

abbrev pub year_back : ℤ → ℤ
year_back (pos zero) = negsuc zero
year_back (pos (suc n)) = pos n
year_back (negsuc n) = negsuc (suc n)

abbrev magnitude : ℤ → ℕ
magnitude (pos n) = n
magnitude (negsuc n) = suc n

abbrev leaps : ℕ → Bool
leaps n = (n % 4 == 0) && (not (n % 100 == 0) || (n % 400 == 0))

unfoldable pub is_leap : ℤ → Bool
is_leap y = leaps (magnitude y)

-- After February the months alternate between 31 and 30 days, and again from August on.
unfoldable pub days_in : ℤ → ℕ → ℕ
days_in y m = if m == 2 then (if is_leap y then 29 else 28) else 30 + (m + m / 8) % 2

-- What time.Parse asks of a date.
unfoldable pub is_civil : Civil → Bool
is_civil c = leb 1 c.month && leb c.month 12 && leb 1 c.day && leb c.day (days_in c.year c.month)

unfoldable pub next : Civil → Civil
next c =
    if ltb c.day (days_in c.year c.month)
    then civil c.year c.month (suc c.day)
    else if ltb c.month 12
    then civil c.year (suc c.month) 1
    else civil (year_on c.year) 1 1

unfoldable pub previous : Civil → Civil
previous c =
    if ltb 1 c.day
    then civil c.year c.month (c.day - 1)
    else if ltb 1 c.month
    then civil c.year (c.month - 1) (days_in c.year (c.month - 1))
    else civil (year_back c.year) 12 31

abbrev pub repeat {ℓ} : {A : Type ℓ} → (A → A) → ℕ → A → A
repeat f zero x = x
repeat f (suc n) x = repeat f n (f x)

-- AddDate(0, 0, days)
unfoldable pub add_date : Civil → ℤ → Civil
add_date c (pos n) = repeat next n c
add_date c (negsuc n) = repeat previous (suc n) c

abbrev pub digit : ℕ → Char
digit n =
    if n == 0
    then "0"
    else if n == 1
    then "1"
    else if n == 2
    then "2"
    else if n == 3
    then "3"
    else if n == 4
    then "4"
    else if n == 5
    then "5"
    else if n == 6
    then "6"
    else if n == 7
    then "7"
    else if n == 8
    then "8"
    else "9"

-- two digits, before the rest of a text
abbrev pub two : ℕ → String → String
two n rest = String.◌∷◌ (digit (n / 10)) (String.◌∷◌ (digit (n % 10)) rest)

abbrev pub four : ℕ → String → String
four n rest = two (n / 100) (two (n % 100) rest)

-- At least four digits; the fuel n is enough, since every round divides n by ten.
unfoldable pub wide : ℕ → ℕ → String → String
wide zero n rest = four n rest
wide (suc fuel) n rest =
    let longer = wide fuel (n / 10) (String.◌∷◌ (digit (n % 10)) rest) in
    if ltb n 10000 then four n rest else longer

unfoldable pub print_year : ℤ → String → String
print_year (pos n) rest = wide n n rest
print_year (negsuc n) rest = String.◌∷◌ "-" (wide (suc n) (suc n) rest)

abbrev pub print_rest : ℕ → ℕ → String
print_rest m d = String.◌∷◌ "-" (two m (String.◌∷◌ "-" (two d "")))

-- DayOf, of a time that falls on the date in UTC
unfoldable pub day_of : Civil → Day
day_of c = print_year c.year (print_rest c.month c.day)

abbrev pub is_digit : Char → Bool
is_digit c = leb 48 (code c) && leb (code c) 57

-- A number of exactly k digits, and what follows.
unfoldable pub number : ℕ → ℕ → String → Option (ℕ × String)
number zero n s = some (n, s)
number (suc k) n String.[] = none
number (suc k) n (String.◌∷◌ c s) =
    let rest = number k (n * 10 + (code c - 48)) s in if is_digit c then rest else none

abbrev pub dash : String → Option String
dash String.[] = none
dash (String.◌∷◌ c s) = if code c == 45 then some s else none

abbrev pub ends : Civil → String → Option Civil
ends c String.[] = if is_civil c then some c else none
ends c (String.◌∷◌ _ _) = none

infixl 10 ◌>>=◌
abbrev pub ◌>>=◌ {ℓ ℓ'} : {A : Type ℓ} {B : Type ℓ'} → Option A → (A → Option B) → Option B
none >>= f = none
some a >>= f = f a

-- time.Parse("2006-01-02", s)
unfoldable pub parse : String → Option Civil
parse s = do
  (y, s₁) ← number 4 0 s
  s₂ ← dash s₁
  (m, s₃) ← number 2 0 s₂
  s₄ ← dash s₃
  (d, s₅) ← number 2 0 s₄
  ends (civil (pos y) m d) s₅

abbrev pub or_zero : Option Civil → Civil
or_zero none = civil (pos 1) 1 1
or_zero (some c) = c

-- Whether ParseDay takes the text.
unfoldable pub is_date : String → Bool
is_date s = is_some (parse s)

-- Day.Time; a text that is no date has the zero time.
unfoldable pub time : Day → Civil
time d = or_zero (parse d)

-- Day.Add
unfoldable pub add : Day → ℤ → Day
add d days = day_of (add_date (time d) days)

-- Day.Before
abbrev pub is_before : Day → Day → Bool
is_before d o = before d o
