-- ===== src/Domain/EventData.antt =====
-- internal/domain/eventdata.go: the free-form data of an event, checked against the rules of its type. A
-- map of Go is an association list; floats and their formats are the parameters of `Formats`.
pub mod Clean
pub mod Idempotent
pub mod Bottling
use Prim.Native.String
use cellarkeep_server.Prelude.{
  ℕ, String, Bool, true, false, not, ◌&&◌, ◌||◌, Option, none, some, List, [], ◌∷◌, map, ℤ,
  string_eq, ◌==◌, if◌then◌else◌, sort_by, ◌⊎◌, inl, inr,
}
use cellarkeep_server.Prelude.Text.{before}
use cellarkeep_server.Domain.Dates.{is_date}
use cellarkeep_server.Store.Model.{Float64}
use cellarkeep_server.Store.Action.{Error, validation, Result, ok, err}
use cellarkeep_server.Domain.Schedule.{Day}

-- A value of JSON as `any` holds it.
pub data Value : Type 0 where
  text : String → Value
  number : Float64 → Value
  null : Value
  -- a Boolean, an array or an object
  other : Value

abbrev pub Data : Type 0
Data = List (String × Value)

-- The value of a key in a map.
abbrev pub at : {A : Type 0} → List (String × A) → String → Option A
at [] key = none
at ((k, a) ∷ rest) key = let r = at rest key in if k == key then some a else r

pub record Formats : Type 0 where
  -- `<` and `==` on float64, which are false on a NaN
  pub lt : Float64 → Float64 → Bool
  pub eq : Float64 → Float64 → Bool
  -- the literal of so many units of the power of ten
  pub decimal : ℕ → ℕ → Float64
  pub neg : Float64 → Float64
  -- float64(int64(n)) and int(n)
  pub integral : Float64 → Float64
  pub to_int : Float64 → ℤ
  -- %v on a float64, %q on a string
  pub show : Float64 → String
  pub quote : String → String

pub data FieldKind : Type 0 where
  string_kind number_kind int_kind day_kind : FieldKind

pub record FieldRule : Type 0 where
  pub kind : FieldKind
  pub required : Bool
  pub min : Option Float64
  pub max : Option Float64

abbrev pub Rules : Type 0
Rules = List (String × FieldRule)

abbrev pub rule : FieldKind → FieldRule
rule k = record { kind = k; required = false; min = none; max = none }

abbrev pub required : FieldRule → FieldRule
required r = record r { required = true }

abbrev pub at_least : Float64 → FieldRule → FieldRule
at_least m r = record r { min = some m }

abbrev pub at_most : Float64 → FieldRule → FieldRule
at_most m r = record r { max = some m }

abbrev pub label : String × FieldRule
label = ("label", rule string_kind)

-- ParseDay of internal/domain/dates.go.
unfoldable pub parse_day : Formats → String → String ⊎ Day
parse_day fm s =
    if is_date s
    then inr s
    else inl (String.◌++◌ "invalid date " (String.◌++◌ (fm.quote s) ": must be YYYY-MM-DD"))

abbrev pub is_int : FieldKind → Bool
is_int int_kind = true
is_int _ = false

abbrev pub missing : FieldRule → String → Result (Option Value)
missing r key = if r.required then err (validation key "is required") else ok none

abbrev pub keep_value : Result Value → Result (Option Value)
keep_value (ok v) = ok (some v)
keep_value (err e) = err e

abbrev pub put : String → Option Value → Data → Data
put key none out = out
put key (some v) out = (key, v) ∷ out

abbrev pub then_put : String → Result (Option Value) → Result Data → Result Data
then_put key (err e) rest = err e
then_put key (ok o) (err e) = err e
then_put key (ok o) (ok out) = ok (put key o out)

abbrev pub keys_of : Rules → List String
keys_of rules = sort_by before (map (λ (p : String × FieldRule). p.0) rules)

module _ (fm : Formats) where
  -- eventRules
  unfoldable pub event_rules : List (String × Rules)
  event_rules =
      ("measurement", label ∷ [])
      ∷ (
        "addition",
        label
            ∷ ("ingredientId", required (rule string_kind))
            ∷ ("qty", required (at_least (fm.decimal 0 0) (rule number_kind)))
            ∷ ("unit", required (rule string_kind))
            ∷ [],
      )
      ∷ ("racking", label ∷ [])
      ∷ (
        "stabilize",
        label
            ∷ ("kmetaG", at_least (fm.decimal 0 0) (rule number_kind))
            ∷ ("sorbateG", at_least (fm.decimal 0 0) (rule number_kind))
            ∷ [],
      )
      ∷ (
        "sweeten",
        label
            ∷ ("targetFg", at_most (fm.decimal 12 1) (at_least (fm.decimal 9 1) (rule number_kind)))
            ∷ ("ingredientId", rule string_kind)
            ∷ ("qty", at_least (fm.decimal 0 0) (rule number_kind))
            ∷ [],
      )
      ∷ (
        "bottling",
        label
            ∷ ("count", required (at_least (fm.decimal 1 0) (rule int_kind)))
            ∷ ("sizeMl", required (at_least (fm.decimal 1 0) (rule int_kind)))
            ∷ ("drinkFrom", rule day_kind)
            ∷ ("drinkTo", rule day_kind)
            ∷ ("location", rule string_kind)
            ∷ [],
      )
      ∷ ("note", label ∷ [])
      ∷ []

  abbrev pub below_min : Option Float64 → Float64 → Bool
  below_min none n = false
  below_min (some m) n = fm.lt n m || (fm.eq m (fm.decimal 0 0) && fm.eq n (fm.decimal 0 0))

  abbrev pub above_max : Option Float64 → Float64 → Bool
  above_max none n = false
  above_max (some m) n = fm.lt m n

  abbrev pub max_text : Option Float64 → String
  max_text none = ""
  max_text (some m) = String.◌++◌ "must be at most " (fm.show m)

  -- The case of "number" and "int".
  unfoldable pub check_number : FieldRule → String → Float64 → Result Value
  check_number r key n =
      if is_int r.kind && not (fm.eq n (fm.integral n))
      then err (validation key "must be an integer")
      else if below_min r.min n
      then err (validation key "must be positive")
      else if above_max r.max n
      then err (validation key (max_text r.max))
      else ok (number n)

  abbrev pub check_day : String → String → String ⊎ Day → Result Value
  check_day key s (inl e) = err (validation key e)
  check_day key s (inr d) = ok (text s)

  -- The switch over the kind of the rule.
  unfoldable pub check_value : FieldKind → FieldRule → String → Value → Result Value
  unfolding check_number parse_day
  check_value string_kind r key (text s) = ok (text s)
  check_value string_kind r key v = err (validation key "must be a string")
  check_value day_kind r key (text s) = check_day key s (parse_day fm s)
  check_value day_kind r key v = err (validation key "must be a YYYY-MM-DD string")
  check_value number_kind r key (number n) = check_number r key n
  check_value number_kind r key v = err (validation key "must be a number")
  check_value int_kind r key (number n) = check_number r key n
  check_value int_kind r key v = err (validation key "must be a number")

  -- The body of the loop: what is kept under a key. An unknown key has the zero rule, which keeps nothing.
  unfoldable pub check_field : Option FieldRule → String → Option Value → Result (Option Value)
  unfolding check_value
  check_field none key v = ok none
  check_field (some r) key none = missing r key
  check_field (some r) key (some null) = missing r key
  check_field (some r) key (some (text s)) = keep_value (check_value r.kind r key (text s))
  check_field (some r) key (some (number n)) = keep_value (check_value r.kind r key (number n))
  check_field (some r) key (some other) = keep_value (check_value r.kind r key other)

  -- The loop over the sorted keys.
  unfoldable pub validate_keys : Rules → Data → List String → Result Data
  unfolding check_field
  validate_keys rules given [] = ok []
  validate_keys rules given (k ∷ ks) =
      then_put k (check_field (at rules k) k (at given k)) (validate_keys rules given ks)

  unfoldable pub validate_by : String → Option Rules → Data → Result Data
  unfolding validate_keys
  validate_by t none given =
      err (validation "type" (String.◌++◌ "unknown event type " (fm.quote t)))
  validate_by t (some rules) given = validate_keys rules given (keys_of rules)

  -- ValidateEventData
  unfoldable pub validate_event_data : String → Data → Result Data
  unfolding event_rules validate_by
  validate_event_data t given = validate_by t (at event_rules t) given
