-- ===== src/Domain/EventData/Bottling.antt =====
-- internal/domain/eventdata.go: ParseBottling. A type assertion without a second result panics when it
-- fails.
use cellarkeep_server.Prelude.{
  [], ◌∷◌, subst, String, true, false, Option, none, some, ◌≡◌, refl, ap, ◌∙◌, ◌⊎◌, inl, inr, ℤ,
}
use cellarkeep_server.Domain.Dates.{is_date}
use cellarkeep_server.Store.Model.{Float64}
use cellarkeep_server.Store.Action.{Error, Result, ok, err, Result-cases}
use cellarkeep_server.Domain.Schedule.{Day}
use cellarkeep_server.Domain.EventData.{
  FieldRule, rule, required, at_least, label, int_kind, day_kind, string_kind, Value, text, number,
  null, Data, at, Formats, Rules, event_rules, validate_event_data,
}
use cellarkeep_server.Domain.EventData.Clean.{Cleaned, validate-Cleaned}

pub record BottlingData : Type 0 where
  pub count : ℤ
  pub size_ml : ℤ
  pub drink_from : Option Day
  pub drink_to : Option Day
  pub location : Option String

-- The result of a call that can panic.
pub data Outcome (A : Type 0) : Type 0 where
  returned : A → Outcome A
  panicked : Outcome A

-- `v.(float64)` and `v.(string)`, with the second result.
abbrev pub float_of : Option Value → Option Float64
float_of (some (number n)) = some n
float_of _ = none

abbrev pub string_of : Option Value → Option String
string_of (some (text s)) = some s
string_of _ = none

module _ (fm : Formats) where
  abbrev pub bottle : Data → Float64 → Float64 → BottlingData
  bottle clean count size = record {
    count = fm.to_int count;
    size_ml = fm.to_int size;
    drink_from = string_of (at clean "drinkFrom");
    drink_to = string_of (at clean "drinkTo");
    location = string_of (at clean "location");
  }

  unfoldable pub bottling_of :
      Data → Option Float64 → Option Float64 → Outcome (Result BottlingData)
  bottling_of clean (some count) (some size) = returned (ok (bottle clean count size))
  bottling_of clean _ _ = panicked

  unfoldable pub from_clean : Result Data → Outcome (Result BottlingData)
  unfolding bottling_of
  from_clean (err e) = returned (err e)
  from_clean (ok clean) =
      bottling_of clean (float_of (at clean "count")) (float_of (at clean "sizeMl"))

  -- ParseBottling
  unfoldable pub parse_bottling : Data → Outcome (Result BottlingData)
  unfolding from_clean validate_event_data
  parse_bottling given = from_clean (validate_event_data fm "bottling" given)

-- A whole number, at least 1, that the payload has under a key.
abbrev pub IsCount : Formats → Data → String → ℤ → Type 0
IsCount fm given key z =
    (n : Float64) × (at given key ≡ some (number n))
    × (z ≡ fm.to_int n)
    × (fm.eq n (fm.integral n) ≡ true)
    × (fm.lt n (fm.decimal 1 0) ≡ false)

-- A date that the payload has under a key, or nothing.
abbrev pub IsDate : Formats → Data → String → Option Day → Type 0
IsDate fm given key none = (at given key ≡ none) ⊎ (at given key ≡ some null)
IsDate fm given key (some d) = (at given key ≡ some (text d)) × (is_date d ≡ true)

abbrev pub IsText : Data → String → Option String → Type 0
IsText given key none = (at given key ≡ none) ⊎ (at given key ≡ some null)
IsText given key (some s) = at given key ≡ some (text s)

pub record IsBottling (fm : Formats) (given : Data) (b : BottlingData) : Type 0 where
  pub counted : IsCount fm given "count" b.count
  pub sized : IsCount fm given "sizeMl" b.size_ml
  pub from : IsDate fm given "drinkFrom" b.drink_from
  pub to : IsDate fm given "drinkTo" b.drink_to
  pub placed : IsText given "location" b.location

module _ (fm : Formats) where
  abbrev count_rule : FieldRule
  count_rule = required (at_least (fm.decimal 1 0) (rule int_kind))

  abbrev bottling_rules : Rules
  bottling_rules =
      label
      ∷ ("count", count_rule)
      ∷ ("sizeMl", count_rule)
      ∷ ("drinkFrom", rule day_kind)
      ∷ ("drinkTo", rule day_kind)
      ∷ ("location", rule string_kind)
      ∷ []

  rules_lem : (rules : Rules) → at (event_rules fm) "bottling" ≡ some rules → rules ≡ bottling_rules
  unfolding event_rules
  rules_lem rules known = cc

  Cleaned-by :
      (given out : Data) (key : String)
      → validate_event_data fm "bottling" given ≡ ok out
      → Cleaned fm (at bottling_rules key) (at given key) (at out key)
  Cleaned-by given out key h =
      let (rules, known, clean) = validate-Cleaned fm "bottling" given out key h in
      subst (λ rs. Cleaned fm (at rs key) (at given key) (at out key)) (rules_lem rules known) clean

  IsCount-of :
      (given : Data) (key : String) (o : Option Value)
      → Cleaned fm (some count_rule) (at given key) o
      → (n : Float64) × (float_of o ≡ some n) × IsCount fm given key (fm.to_int n)
  IsCount-of given key o (inl (_, free, _)) = cc
  IsCount-of given key o (inr (x, vx, ox, (n, xn, whole, (lower, upper)))) =
      (n, rw (ox, xn) refl, (n, vx ∙ ap some xn, refl, whole, (lower (fm.decimal 1 0) refl).0))

  IsDate-of :
      (given : Data) (key : String) (o : Option Value)
      → Cleaned fm (some (rule day_kind)) (at given key) o
      → IsDate fm given key (string_of o)
  IsDate-of given key o (inl (gone, _, nothing)) = rw gone nothing
  IsDate-of given key o (inr (x, vx, ox, (s, xs, valid))) = rw (ox, xs) (vx ∙ ap some xs, valid)

  IsText-of :
      (given : Data) (key : String) (o : Option Value)
      → Cleaned fm (some (rule string_kind)) (at given key) o
      → IsText given key (string_of o)
  IsText-of given key o (inl (gone, _, nothing)) = rw gone nothing
  IsText-of given key o (inr (x, vx, ox, (s, xs))) = rw (ox, xs) (vx ∙ ap some xs)

parse_bottling-from :
    (fm : Formats) (given : Data) (r : Result Data)
    → validate_event_data fm "bottling" given ≡ r
    → parse_bottling fm given ≡ from_clean fm r
unfolding parse_bottling
parse_bottling-from fm given r h = ap (from_clean fm) h

bottling_of-eq :
    (fm : Formats) (out : Data) (oc oz : Option Float64) (c z : Float64)
    → oc ≡ some c
    → oz ≡ some z
    → bottling_of fm out oc oz ≡ returned (ok (bottle fm out c z))
unfolding bottling_of
bottling_of-eq fm out oc oz c z ec ez = rw (ec, ez) refl

-- ParseBottling never panics: it returns the error of the validation, or the counts, dates and place that
-- the payload holds, the counts whole and at least 1, the dates valid.
pub parse_bottling_lem :
    (fm : Formats) (given : Data)
    → ((e : Error) × (validate_event_data fm "bottling" given ≡ err e)
        × (parse_bottling fm given ≡ returned (err e)))
      ⊎ ((b : BottlingData) × (parse_bottling fm given ≡ returned (ok b)) × IsBottling fm given b)
unfolding from_clean bottling_of
parse_bottling_lem fm given = elim (Result-cases (validate_event_data fm "bottling" given)) [
  | inr (e, failed) ↦ inl (e, failed, parse_bottling-from fm given (err e) failed)
  | inl (out, valid) ↦
      let clean = λ (key : String). Cleaned-by fm given out key valid in
      let (c, ec, counted) = IsCount-of fm given "count" (at out "count") (clean "count") in
      let (z, ez, sized) = IsCount-of fm given "sizeMl" (at out "sizeMl") (clean "sizeMl") in
      inr (
        bottle fm out c z,
        parse_bottling-from fm given (ok out) valid ∙ bottling_of-eq fm out _ _ c z ec ez,
        record {
          counted = counted;
          sized = sized;
          from = IsDate-of fm given "drinkFrom" (at out "drinkFrom") (clean "drinkFrom");
          to = IsDate-of fm given "drinkTo" (at out "drinkTo") (clean "drinkTo");
          placed = IsText-of fm given "location" (at out "location") (clean "location");
        },
      )
]
