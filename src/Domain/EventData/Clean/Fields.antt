-- ===== src/Domain/EventData/Clean/Fields.antt =====
-- What the check of one field lets through.
use cellarkeep_server.Prelude.{
  String, true, false, not, ◌&&◌, Option, none, some, string_eq, ◌≡◌, refl, ◌⊎◌, inl, inr,
  Bool-cases, arith,
}
use cellarkeep_server.Domain.Dates.{is_date}
use cellarkeep_server.Store.Model.{Float64}
use cellarkeep_server.Store.Action.{Result, ok, err}
use cellarkeep_server.Domain.EventData.{
  Value, text, number, null, other, Formats, FieldKind, string_kind, number_kind, int_kind,
  day_kind, FieldRule, below_min, above_max, check_number, check_value, check_field, missing,
  keep_value, is_int, parse_day,
}

-- A number within the bounds of a rule, and a value that a rule accepts.
abbrev pub InBounds : Formats → FieldRule → Float64 → Type 0
InBounds fm r n =
    ((m : Float64)
      → r.min ≡ some m
      → (fm.lt n m ≡ false) × (fm.eq m (fm.decimal 0 0) && fm.eq n (fm.decimal 0 0) ≡ false))
    × ((m : Float64) → r.max ≡ some m → fm.lt m n ≡ false)

abbrev pub IsFit : Formats → FieldKind → FieldRule → Value → Type 0
IsFit fm string_kind r v = (s : String) × (v ≡ text s)
IsFit fm day_kind r v = (s : String) × (v ≡ text s) × (is_date s ≡ true)
IsFit fm number_kind r v = (n : Float64) × (v ≡ number n) × InBounds fm r n
IsFit fm int_kind r v =
    (n : Float64) × (v ≡ number n) × (fm.eq n (fm.integral n) ≡ true) × InBounds fm r n

-- What the rule of a key, if it has one, lets through.
abbrev pub Cleaned : Formats → Option FieldRule → Option Value → Option Value → Type 0
Cleaned fm none v out = out ≡ none
Cleaned fm (some r) v out =
    ((out ≡ none) × (r.required ≡ false) × ((v ≡ none) ⊎ (v ≡ some null)))
    ⊎ ((x : Value) × (v ≡ some x) × (out ≡ some x) × IsFit fm r.kind r x)

keep_value-ok :
    (x : Result Value) (o : Option Value)
    → keep_value x ≡ ok o
    → (v : Value) × (x ≡ ok v) × (o ≡ some v)
keep_value-ok (ok v) o h = (v, refl, ground arith)
keep_value-ok (err e) o h = cc

module _ (fm : Formats) (r : FieldRule) (key : String) where
  missing-ok : (o : Option Value) → missing r key ≡ ok o → (o ≡ none) × (r.required ≡ false)
  missing-ok o h = ground arith

  check_number-passed :
      (n : Float64) (v : Value)
      → check_number fm r key n ≡ ok v
      → (v ≡ number n)
        × (is_int r.kind && not (fm.eq n (fm.integral n)) ≡ false)
        × (below_min fm r.min n ≡ false)
        × (above_max fm r.max n ≡ false)
  unfolding check_number
  check_number-passed n v h = ground arith

  below_min-bound :
      (lower : Option Float64) (n : Float64)
      → below_min fm lower n ≡ false
      → (m : Float64) → lower ≡ some m
      → (fm.lt n m ≡ false) × (fm.eq m (fm.decimal 0 0) && fm.eq n (fm.decimal 0 0) ≡ false)
  below_min-bound none n h m e = cc
  below_min-bound (some l) n h m e = ground arith

  above_max-bound :
      (upper : Option Float64) (n : Float64)
      → above_max fm upper n ≡ false
      → (m : Float64) → upper ≡ some m
      → fm.lt m n ≡ false
  above_max-bound none n h m e = cc
  above_max-bound (some l) n h m e = ground arith

  check_number-ok :
      (n : Float64) (v : Value)
      → check_number fm r key n ≡ ok v
      → (v ≡ number n) × ((is_int r.kind ≡ true) → fm.eq n (fm.integral n) ≡ true) × InBounds fm r n
  check_number-ok n v h =
      let (same, whole, above, below) = check_number-passed n v h in
      (same, λ i. ground arith, (below_min-bound r.min n above, above_max-bound r.max n below))

  check_value-ok :
      (k : FieldKind) (x v : Value)
      → r.kind ≡ k
      → check_value fm k r key x ≡ ok v
      → (v ≡ x) × IsFit fm k r x
  unfolding check_value parse_day
  check_value-ok string_kind (text s) v e h = (ground arith, (s, refl))
  check_value-ok string_kind (number n) v e h = cc
  check_value-ok string_kind null v e h = cc
  check_value-ok string_kind other v e h = cc
  check_value-ok day_kind (text s) v e h = elim (Bool-cases (is_date s)) [
    | inl d ↦ (ground arith, (s, refl, d))
    | inr d ↦ ground arith
  ]
  check_value-ok day_kind (number n) v e h = cc
  check_value-ok day_kind null v e h = cc
  check_value-ok day_kind other v e h = cc
  check_value-ok number_kind (number n) v e h =
      let (same, _, bounds) = check_number-ok n v h in (same, (n, refl, bounds))
  check_value-ok number_kind (text s) v e h = cc
  check_value-ok number_kind null v e h = cc
  check_value-ok number_kind other v e h = cc
  check_value-ok int_kind (number n) v e h =
      let (same, whole, bounds) = check_number-ok n v h in
      (same, (n, refl, whole (rw e refl), bounds))
  check_value-ok int_kind (text s) v e h = cc
  check_value-ok int_kind null v e h = cc
  check_value-ok int_kind other v e h = cc

  fits :
      (x : Value) (o : Option Value)
      → keep_value (check_value fm r.kind r key x) ≡ ok o
      → Cleaned fm (some r) (some x) o
  fits x o h =
      let (v, e, same) = keep_value-ok (check_value fm r.kind r key x) o h in
      let (vx, fit) = check_value-ok r.kind x v refl e in inr (x, refl, cc, fit)

  absent :
      (v o : Option Value)
      → (v ≡ none) ⊎ (v ≡ some null)
      → missing r key ≡ ok o
      → Cleaned fm (some r) v o
  absent v o nothing h = let (gone, free) = missing-ok o h in inl (gone, free, nothing)

pub check_field-ok :
    (fm : Formats) (r : Option FieldRule) (key : String) (v o : Option Value)
    → check_field fm r key v ≡ ok o
    → Cleaned fm r v o
unfolding check_field
check_field-ok fm none key v o h = ground arith
check_field-ok fm (some r) key none o h = absent fm r key none o (inl refl) h
check_field-ok fm (some r) key (some null) o h = absent fm r key (some null) o (inr refl) h
check_field-ok fm (some r) key (some (text s)) o h = fits fm r key (text s) o h
check_field-ok fm (some r) key (some (number n)) o h = fits fm r key (number n) o h
check_field-ok fm (some r) key (some other) o h = fits fm r key other o h
