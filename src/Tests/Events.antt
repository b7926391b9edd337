-- ===== src/Tests/Events.antt =====
-- Witnesses for event data, metrics and the registry.
use cellarkeep_server.Prelude.{
  ◌*◌, String, true, some, [], ◌∷◌, pos, ltb, nat_eq, string_eq, ◌==◌, ◌≡◌, ◌⊎◌, refl,
}
use cellarkeep_server.Store.Action.{Error, ok, err}
use cellarkeep_server.Domain.Dates.{is_date, parse, number as read_number, is_civil, days_in}
use cellarkeep_server.Domain.EventData.{
  text, number, null, Data, at, Formats, Rules, event_rules, validate_event_data, parse_day, label,
  required, at_least, rule, int_kind, day_kind, string_kind, FieldRule,
}
use cellarkeep_server.Prelude.Text.{before}
use cellarkeep_server.Domain.EventData.Clean.Faults.{Accepts, Names}
use cellarkeep_server.Domain.EventData.Clean.{Cleaned, validate-Cleaned, validate_fails}
use cellarkeep_server.Domain.EventData.Idempotent.{validate_again}
use cellarkeep_server.Domain.EventData.Bottling.{
  BottlingData, returned, IsBottling, parse_bottling, parse_bottling_lem,
}

-- Numbers in thousandths in the place of floats.
abbrev pub formats1 : Formats
formats1 = record {
  lt = ltb;
  eq = λ a b. a == b;
  decimal = λ n k. n * 1000;
  neg = λ n. n;
  integral = λ n. n;
  to_int = λ n. pos n;
  show = λ n. "n";
  quote = λ s. s;
}

-- Twelve bottles, with a place, a date and a key without a rule.
abbrev bottles : Data
bottles =
    ("count", number 12000)
    ∷ ("colour", text "red")
    ∷ ("sizeMl", number 750000)
    ∷ ("drinkFrom", text "2025-01-31")
    ∷ ("location", null)
    ∷ []

abbrev clean_bottles : Data
clean_bottles =
    ("count", number 12000) ∷ ("drinkFrom", text "2025-01-31") ∷ ("sizeMl", number 750000) ∷ []

bottles-clean : validate_event_data formats1 "bottling" bottles ≡ ok clean_bottles
unfolding validate_event_data parse_day is_date parse read_number is_civil days_in
bottles-clean = refl

validate-Cleaned_example :
    (rules : Rules) × (at (event_rules formats1) "bottling" ≡ some rules)
    × Cleaned formats1 (at rules "colour") (at bottles "colour") (at clean_bottles "colour")
validate-Cleaned_example =
    validate-Cleaned formats1 "bottling" bottles clean_bottles "colour" bottles-clean

validate_again_example : validate_event_data formats1 "bottling" clean_bottles ≡ ok clean_bottles
validate_again_example = validate_again formats1 "bottling" bottles clean_bottles bottles-clean

parse_bottling_lem_example :
    ((e : Error) × (validate_event_data formats1 "bottling" bottles ≡ err e)
      × (parse_bottling formats1 bottles ≡ returned (err e)))
    ⊎ ((b : BottlingData) × (parse_bottling formats1 bottles ≡ returned (ok b))
        × IsBottling formats1 bottles b)
parse_bottling_lem_example = parse_bottling_lem formats1 bottles

-- The size is missing too, but the count comes first.
abbrev no_bottles : Data
no_bottles = ("location", text "cellar") ∷ []

abbrev rules_of_bottling : Rules
rules_of_bottling =
    label
    ∷ ("count", required (at_least 1000 (rule int_kind)))
    ∷ ("sizeMl", required (at_least 1000 (rule int_kind)))
    ∷ ("drinkFrom", rule day_kind)
    ∷ ("drinkTo", rule day_kind)
    ∷ ("location", rule string_kind)
    ∷ []

validate_fails_example :
    ((e : Error)
      → validate_event_data formats1 "bottling" no_bottles ≡ err e
      → (key : String) × (r : FieldRule) × (at rules_of_bottling key ≡ some r)
        × Names formats1 r key e
        × (Accepts formats1 r (at no_bottles key) → ⊥)
        × ((j : String) (q : FieldRule)
            → before j key ≡ true
            → at rules_of_bottling j ≡ some q
            → Accepts formats1 q (at no_bottles j)))
    × ((key : String) (r : FieldRule)
        → at rules_of_bottling key ≡ some r
        → (Accepts formats1 r (at no_bottles key) → ⊥)
        → (e : Error) × (validate_event_data formats1 "bottling" no_bottles ≡ err e))
unfolding event_rules
validate_fails_example = validate_fails formats1 "bottling" no_bottles rules_of_bottling refl
