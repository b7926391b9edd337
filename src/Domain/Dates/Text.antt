-- ===== src/Domain/Dates/Text.antt =====
-- The text of a date, and reading it back.
use Prim.Native.Char.{Char, code}
use cellarkeep_server.Prelude.{
  ℕ, zero, suc, ◌+◌, ◌-◌, ◌*◌, ◌/◌, ◌%◌, ◌<◌, String, Bool, true, false, ◌&&◌, some, ℤ, pos, leb,
  nat_eq, if◌then◌else◌, ◌≡◌, refl, arith, sym, subst, ◌∙◌, ap,
}
use cellarkeep_server.Domain.Dates.{
  Civil, civil, is_civil, digit, two, four, wide, print_year, days_in, print_rest, day_of, is_digit,
  number, parse, time, or_zero,
}

code-if : (b : Bool) (x y : Char) → code (if b then x else y) ≡ (if b then code x else code y)
code-if true x y = refl
code-if false x y = refl

pub code-digit : (n : ℕ) → n < 10 → code (digit n) ≡ 48 + n
code-digit n h = simp (code-if) (ground arith)

within : (n : ℕ) → n < 10 → leb 48 (48 + n) && leb (48 + n) 57 ≡ true
within n h = ground arith

digit-is_digit : (n : ℕ) → n < 10 → is_digit (digit n) ≡ true
digit-is_digit n h = rw (code-digit n h) (within n h)

digit_value : (n : ℕ) → n < 10 → code (digit n) - 48 ≡ n
digit_value n h = rw (code-digit n h) (omega arith)

pub number-digit :
    (k n d : ℕ) (rest : String)
    → d < 10
    → number (suc k) n (String.◌∷◌ (digit d) rest) ≡ number k (n * 10 + d) rest
unfolding number
number-digit k n d rest h = rw (digit-is_digit d h, digit_value d h)

number-two :
    (k m n v : ℕ) (rest : String)
    → n < 100
    → (m * 100) + n ≡ v
    → number (suc (suc k)) m (two n rest) ≡ number k v rest
number-two k m n v rest h e =
    number-digit _ m (n / 10) _ (omega arith)
    ∙ number-digit k _ (n % 10) rest (omega arith)
    ∙ ap (λ x. number k x rest) (omega arith)

number-zero : (n : ℕ) (rest : String) → number zero n rest ≡ some (n, rest)
unfolding number
number-zero n rest = refl

read_two : (n : ℕ) (rest : String) → n < 100 → number 2 0 (two n rest) ≡ some (n, rest)
read_two n rest h = number-two 0 0 n n rest h (omega arith) ∙ number-zero n rest

read_four : (n : ℕ) (rest : String) → n < 10000 → number 4 0 (four n rest) ≡ some (n, rest)
read_four n rest h =
    number-two 2 0 (n / 100) (n / 100) _ (omega arith) (omega arith)
    ∙ number-two 0 (n / 100) (n % 100) n rest (omega arith) (omega arith)
    ∙ number-zero n rest

wide-four : (fuel n : ℕ) (rest : String) → n < 10000 → wide fuel n rest ≡ four n rest
unfolding wide
wide-four zero n rest h = refl
wide-four (suc fuel) n rest h = ground arith

-- The date is one that four digits can tell the year of.
unfoldable pub IsWritten : Civil → Type 0
IsWritten c = (is_civil c ≡ true) × ((y : ℕ) × (c.year ≡ pos y) × (y < 10000))

pub IsWritten-is_civil : (c : Civil) → IsWritten c → is_civil c ≡ true
unfolding IsWritten
IsWritten-is_civil c h = h.0

days_in_bound : (y : ℤ) (m : ℕ) → days_in y m < 32
unfolding days_in
days_in_bound y m = ground arith

pub is_civil_bounds : (c : Civil) → is_civil c ≡ true → (c.month < 100) × (c.day < 100)
unfolding is_civil
is_civil_bounds c h = let b = days_in_bound c.year c.month in ground arith

parse-print :
    (y m d : ℕ)
    → y < 10000
    → is_civil (civil (pos y) m d) ≡ true
    → parse (four y (print_rest m d)) ≡ some (civil (pos y) m d)
unfolding parse
parse-print y m d hy h =
    let b = is_civil_bounds _ h in
    rw (read_four y (print_rest m d) hy, read_two m _ b.0, read_two d "" b.1, h)

pub day_of-four : (y m d : ℕ) → y < 10000 → day_of (civil (pos y) m d) ≡ four y (print_rest m d)
unfolding day_of print_year
day_of-four y m d h = wide-four y y _ h

-- A written date is read back from its text.
pub parse-day_of : (c : Civil) → IsWritten c → parse (day_of c) ≡ some c
unfolding IsWritten
parse-day_of c (ok, (y, e, h)) =
    let same : civil (pos y) c.month c.day ≡ c = ap (λ x. civil x c.month c.day) (sym e) in
    subst (λ x. parse (day_of x) ≡ some x) same
      (ap parse (day_of-four y c.month c.day h)
        ∙ parse-print y c.month c.day h (ap is_civil same ∙ ok))

pub time-day_of : (c : Civil) → IsWritten c → time (day_of c) ≡ c
unfolding time
time-day_of c h = ap or_zero (parse-day_of c h)
