-- ===== src/Domain/Dates/Order.antt =====
-- The order of dates as texts, which Day.Before compares, and the order of the calendar.
use cellarkeep_server.Prelude.{
  ℕ, ◌+◌, ◌*◌, ◌/◌, ◌%◌, ◌<◌, String, Bool, true, false, pos, ltb, ltz, nat_eq, ◌==◌, if◌then◌else◌,
  ◌≡◌, refl, arith, sym, ◌∙◌, ap,
}
use cellarkeep_server.Prelude.Text.{before}
use cellarkeep_server.Domain.Dates.{Civil, civil, digit, two, four, print_rest, day_of, is_before}
use cellarkeep_server.Domain.Dates.Text.{code-digit, IsWritten, day_of-four, is_civil_bounds}

shift_eq : (a b : ℕ) → (48 + a == 48 + b) ≡ (a == b)
shift_eq a b = ground arith

shift_ltb : (a b : ℕ) → ltb (48 + a) (48 + b) ≡ ltb a b
shift_ltb a b = ground arith

-- The comparison of a pair, of which the first parts are a and b, and `rest` compares the second.
abbrev pub if_less : ℕ → ℕ → Bool → Bool
if_less a b rest = if a == b then rest else ltb a b

tens : (n : ℕ) → ((n / 10) * 10) + n % 10 ≡ n
tens n = omega arith

hundreds : (n : ℕ) → ((n / 100) * 100) + n % 100 ≡ n
hundreds n = omega arith

less : (a b : ℕ) → if_less a b false ≡ ltb a b
less a b = ground arith

before-digit :
    (a b : ℕ) (p q : String)
    → a < 10
    → b < 10
    → before (String.◌∷◌ (digit a) p) (String.◌∷◌ (digit b) q) ≡ if_less a b (before p q)
before-digit a b p q h k = rw (code-digit a h, code-digit b k, shift_eq a b, shift_ltb a b)

-- Comparing the high parts of two numbers first, and then the low parts, compares the numbers.
join_tens :
    (h l h' l' : ℕ) (rest : Bool)
    → l < 10
    → l' < 10
    → if_less h h' (if_less l l' rest) ≡ if_less (h * 10 + l) (h' * 10 + l') rest
join_tens h l h' l' rest k k' = ground arith

join_hundreds :
    (h l h' l' : ℕ) (rest : Bool)
    → l < 100
    → l' < 100
    → if_less h h' (if_less l l' rest) ≡ if_less (h * 100 + l) (h' * 100 + l') rest
join_hundreds h l h' l' rest k k' = ground arith

abbrev low : ℕ → String → String
low n p = String.◌∷◌ (digit (n % 10)) p

before-two :
    (a b : ℕ) (p q : String)
    → a < 100
    → b < 100
    → before (two a p) (two b q) ≡ if_less a b (before p q)
before-two a b p q h k =
    before-digit (a / 10) (b / 10) (low a p) (low b q) (omega arith) (omega arith)
    ∙ ap (if_less (a / 10) (b / 10))
        (before-digit (a % 10) (b % 10) p q (omega arith) (omega arith))
    ∙ join_tens (a / 10) (a % 10) (b / 10) (b % 10) (before p q) (omega arith) (omega arith)
    ∙ ap (λ x. if_less x ((b / 10) * 10 + b % 10) (before p q)) (tens a)
    ∙ ap (λ x. if_less a x (before p q)) (tens b)

before-four :
    (a b : ℕ) (p q : String)
    → a < 10000
    → b < 10000
    → before (four a p) (four b q) ≡ if_less a b (before p q)
before-four a b p q h k =
    before-two (a / 100) (b / 100) (two (a % 100) p) (two (b % 100) q) (omega arith) (omega arith)
    ∙ ap (if_less (a / 100) (b / 100))
        (before-two (a % 100) (b % 100) p q (omega arith) (omega arith))
    ∙ join_hundreds (a / 100) (a % 100) (b / 100) (b % 100) (before p q) (omega arith) (omega arith)
    ∙ ap (λ x. if_less x ((b / 100) * 100 + b % 100) (before p q)) (hundreds a)
    ∙ ap (λ x. if_less a x (before p q)) (hundreds b)

before-dash : (p q : String) → before (String.◌∷◌ "-" p) (String.◌∷◌ "-" q) ≡ before p q
before-dash p q = refl

abbrev after : ℕ → String
after d = String.◌∷◌ "-" (two d "")

before-print_rest :
    (m d m' d' : ℕ)
    → (m < 100) × (d < 100)
    → (m' < 100) × (d' < 100)
    → before (print_rest m d) (print_rest m' d') ≡ if_less m m' (ltb d d')
before-print_rest m d m' d' h k =
    before-two m m' (after d) (after d') h.0 k.0
    ∙ ap (if_less m m') (before-two d d' "" "" h.1 k.1 ∙ less d d')

-- Which of two dates comes first, by year, month and day.
unfoldable pub earlier : Civil → Civil → Bool
earlier c d =
    if ltz c.year d.year
    then true
    else if ltz d.year c.year
    then false
    else if_less c.month d.month (ltb c.day d.day)

if_less-years :
    (a b : ℕ) (rest : Bool)
    → if_less a b rest ≡ (if ltb a b then true else if ltb b a then false else rest)
if_less-years a b rest = ground arith

-- On dates with years of four digits Before, which compares texts, is the order of the calendar.
pub is_before-earlier :
    (c d : Civil) → IsWritten c → IsWritten d → is_before (day_of c) (day_of d) ≡ earlier c d
unfolding IsWritten earlier
is_before-earlier c d (ok, (y, e, h)) (ok', (y', e', h')) =
    let eq : (civil (pos y) c.month c.day ≡ c) = ap (λ x. civil x c.month c.day) (sym e) in
    let eq' : (civil (pos y') d.month d.day ≡ d) = ap (λ x. civil x d.month d.day) (sym e') in
    ap (λ x. is_before x (day_of d)) (ap day_of (sym eq) ∙ day_of-four y c.month c.day h)
    ∙ ap (is_before (four y (print_rest c.month c.day)))
        (ap day_of (sym eq') ∙ day_of-four y' d.month d.day h')
    ∙ before-four y y' (print_rest c.month c.day) (print_rest d.month d.day) h h'
    ∙ ap (if_less y y') (
        before-print_rest c.month c.day d.month d.day (is_civil_bounds c ok)
          (is_civil_bounds d ok'))
    ∙ if_less-years y y' _
    ∙ rw (e, e') refl
