-- ===== src/Domain/Dates/Parsing.antt =====
-- Which texts ParseDay takes.
use Prim.Native.Char.{Char, code}
use mathlib.Core.Option.{some-injective}
use text.Mathlib.TextEquality.{Char-path}
use cellarkeep_server.Prelude.{
  ℕ, zero, suc, ◌+◌, ◌-◌, ◌*◌, ◌/◌, ◌%◌, ◌<◌, String, true, false, Option, none, some, pos, nat_eq,
  ◌≡◌, refl, arith, sym, ◌∙◌, ap, inl, inr, ◌↔◌, Bool-cases,
}
use cellarkeep_server.Domain.Dates.{
  Civil, civil, is_civil, ◌>>=◌, digit, two, four, day_of, is_digit, number, dash, ends, parse,
}
use cellarkeep_server.Domain.Dates.Text.{IsWritten, code-digit, day_of-four, parse-day_of}

module _ {A B : Type 0} where
  bind-inv :
      (o : Option A) (f : A → Option B) (b : B)
      → (o >>= f) ≡ some b
      → (a : A) × ((o ≡ some a) × (f a ≡ some b))
  bind-inv none f b e = ground arith
  bind-inv (some a) f b e = (a, (refl, e))

digit-of :
    (c : Char) → is_digit c ≡ true → (d : ℕ) × ((d < 10) × ((c ≡ digit d) × (code c - 48 ≡ d)))
digit-of c h =
    let d = code c - 48 in
    let small : d < 10 = ground arith in
    let full : 48 + d ≡ code c = ground arith in
    (d, (small, (Char-path c (digit d) (sym (code-digit d small ∙ full)), refl)))

number-inv :
    (k n : ℕ) (s : String) (r : ℕ × String)
    → number (suc k) n s ≡ some r
    → (d : ℕ) × ((d < 10)
        × ((s' : String) × ((s ≡ String.◌∷◌ (digit d) s') × (number k (n * 10 + d) s' ≡ some r))))
unfolding number
number-inv k n String.[] r e = ground arith
number-inv k n (String.◌∷◌ c s) r e = elim (Bool-cases (is_digit c)) [
  | inl digital ↦
      let (d, (small, (eq, value))) = digit-of c digital in
      (
        d,
        (
          small,
          (
            s,
            (
              ap (λ x. String.◌∷◌ x s) eq,
              ap (λ x. number k (n * 10 + x) s) (sym value) ∙ sym (read digital) ∙ e,
            ),
          ),
        ),
      )
  | inr other ↦ absurd (let f = sym (unread other) ∙ e in ground arith)
]
  where
    read :
        is_digit c ≡ true → number (suc k) n (String.◌∷◌ c s) ≡ number k (n * 10 + (code c - 48)) s
    read h = rw h refl

    unread : is_digit c ≡ false → number (suc k) n (String.◌∷◌ c s) ≡ none
    unread h = rw h refl

two-of :
    (a b v : ℕ) (s : String)
    → a < 10
    → b < 10
    → (a * 10) + b ≡ v
    → String.◌∷◌ (digit a) (String.◌∷◌ (digit b) s) ≡ two v s
two-of a b v s h k e =
    let high : a ≡ v / 10 = omega arith in
    let low : b ≡ v % 10 = omega arith in
    ap (λ x. String.◌∷◌ (digit x) (String.◌∷◌ (digit b) s)) high
    ∙ ap (λ x. String.◌∷◌ (digit (v / 10)) (String.◌∷◌ (digit x) s)) low

number-two_inv :
    (k n : ℕ) (s : String) (r : ℕ × String)
    → number (suc (suc k)) n s ≡ some r
    → (v : ℕ) × ((v < 100)
        × ((s' : String) × ((s ≡ two v s') × (number k (n * 100 + v) s' ≡ some r))))
number-two_inv k n s r e =
    let (a, (ha, (s₁, (e₁, more)))) = number-inv (suc k) n s r e in
    let (b, (hb, (s₂, (e₂, rest)))) = number-inv k _ s₁ r more in
    let v = a * 10 + b in
    let value : (n * 10 + a) * 10 + b ≡ n * 100 + v = omega arith in
    (
      v,
      (
        omega arith,
        (
          s₂,
          (
            e₁ ∙ ap (String.◌∷◌ (digit a)) e₂ ∙ two-of a b v s₂ ha hb refl,
            ap (λ x. number k x s₂) (sym value) ∙ rest,
          ),
        ),
      ),
    )

number-zero_inv : (n v : ℕ) (s t : String) → number zero n s ≡ some (v, t) → (n ≡ v) × (s ≡ t)
unfolding number
number-zero_inv n v s t e =
    let p = some-injective (n, s) (v, t) e in (ap (λ x. x.0) p, ap (λ x. x.1) p)

read_two-inv :
    (s : String) (r : ℕ × String) → number 2 0 s ≡ some r → (r.0 < 100) × (s ≡ two r.0 r.1)
read_two-inv s (v, t) e =
    let (w, (h, (s', (e', rest)))) = number-two_inv 0 0 s (v, t) e in
    let (same, same') = number-zero_inv _ v s' t rest in
    let value : w ≡ v = omega arith in
    (omega arith, e' ∙ ap (λ x. two x s') value ∙ ap (two v) same')

four-of :
    (a b v : ℕ) (s : String) → a < 100 → b < 100 → (a * 100) + b ≡ v → two a (two b s) ≡ four v s
four-of a b v s h k e =
    let high : a ≡ v / 100 = omega arith in
    let low : b ≡ v % 100 = omega arith in
    ap (λ x. two x (two b s)) high ∙ ap (λ x. two (v / 100) (two x s)) low

read_four-inv :
    (s : String) (r : ℕ × String) → number 4 0 s ≡ some r → (r.0 < 10000) × (s ≡ four r.0 r.1)
read_four-inv s (v, t) e =
    let (a, (ha, (s₁, (e₁, more)))) = number-two_inv 2 0 s (v, t) e in
    let (b, (hb, (s₂, (e₂, rest)))) = number-two_inv 0 _ s₁ (v, t) more in
    let (same, same') = number-zero_inv _ v s₂ t rest in
    let value : (a * 100) + b ≡ v = omega arith in
    (omega arith, e₁ ∙ ap (two a) e₂ ∙ four-of a b v s₂ ha hb value ∙ ap (four v) same')

dash-inv : (s t : String) → dash s ≡ some t → s ≡ String.◌∷◌ "-" t
dash-inv String.[] t e = ground arith
dash-inv (String.◌∷◌ c s) t e =
    let same : code c ≡ 45 = ground arith in
    let rest : s ≡ t = ground arith in
    ap (λ x. String.◌∷◌ x s) (Char-path c "-" same) ∙ ap (String.◌∷◌ "-") rest

ends-inv :
    (c d : Civil) (s : String) → ends c s ≡ some d → (s ≡ "") × ((c ≡ d) × (is_civil c ≡ true))
ends-inv c d String.[] e = ground arith
ends-inv c d (String.◌∷◌ a s) e = ground arith

parse-inv : (s : String) (c : Civil) → parse s ≡ some c → IsWritten c × (day_of c ≡ s)
unfolding parse IsWritten
parse-inv s c e =
    let ((y, s₁), (ey, e₁)) = bind-inv (number 4 0 s) _ c e in
    let (s₂, (d₂, e₂)) = bind-inv (dash s₁) _ c e₁ in
    let ((m, s₃), (em, e₃)) = bind-inv (number 2 0 s₂) _ c e₂ in
    let (s₄, (d₄, e₄)) = bind-inv (dash s₃) _ c e₃ in
    let ((d, s₅), (ed, e₅)) = bind-inv (number 2 0 s₄) _ c e₄ in
    let (nil, (same, ok)) = ends-inv (civil (pos y) m d) c s₅ e₅ in
    let (hy, py) = read_four-inv s (y, s₁) ey in
    let (hm, pm) = read_two-inv s₂ (m, s₃) em in
    let (hd, pd) = read_two-inv s₄ (d, s₅) ed in
    (
      (ap is_civil (sym same) ∙ ok, (y, ap (λ x. x.year) (sym same), hy)),
      ap day_of (sym same)
          ∙ day_of-four y m d hy
          ∙ sym (
              py
              ∙ ap (four y) (
                  dash-inv s₁ s₂ d₂
                  ∙ ap (String.◌∷◌ "-") (
                      pm
                      ∙ ap (two m)
                          (dash-inv s₃ s₄ d₄ ∙ ap (String.◌∷◌ "-") (pd ∙ ap (two d) nil))))),
    )

-- ParseDay takes a text, and Time reads the date c from it, exactly if c is a date with a year of four
-- digits and the text is the one that DayOf writes for c.
pub parse_iff : (s : String) (c : Civil) → (parse s ≡ some c) ↔ (IsWritten c × (day_of c ≡ s))
parse_iff s c = (parse-inv s c, λ (h, e). ap parse (sym e) ∙ parse-day_of c h)
