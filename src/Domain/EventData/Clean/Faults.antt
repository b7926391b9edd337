-- ===== src/Domain/EventData/Clean/Faults.antt =====
-- When the check of one field fails.
use mathlib.Core.Option.{some-injective}
use cellarkeep_server.Prelude.{
  Bool, if◌then◌else◌, ap, ◌≢◌, String, true, false, not, ◌&&◌, Option, none, some, ◌≡◌, refl, ◌⊎◌,
  inl, inr, subst, arith, sym, ◌∙◌,
}
use cellarkeep_server.Domain.Schedule.{Day}
use cellarkeep_server.Store.Model.{Float64}
use cellarkeep_server.Store.Action.{Error, validation, Result, ok, err}
use cellarkeep_server.Domain.EventData.{
  Value, text, number, null, other, Formats, FieldKind, string_kind, number_kind, int_kind,
  day_kind, FieldRule, below_min, above_max, check_number, check_value, check_field, missing,
  keep_value, is_int, parse_day, check_day,
}
use cellarkeep_server.Domain.EventData.Clean.Fields.{InBounds, IsFit, Cleaned}

-- A rule accepts what is, or is not, under its key.
abbrev pub Accepts : Formats → FieldRule → Option Value → Type 0
Accepts fm r v = (o : Option Value) × Cleaned fm (some r) v o

module _ (fm : Formats) (r : FieldRule) (key : String) where
  below_min-false :
      (lower : Option Float64) (n : Float64)
      → ((m : Float64)
          → lower ≡ some m
          → (fm.lt n m ≡ false) × (fm.eq m (fm.decimal 0 0) && fm.eq n (fm.decimal 0 0) ≡ false))
      → below_min fm lower n ≡ false
  below_min-false none n h = refl
  below_min-false (some m) n h = let b = h m refl in ground arith

  above_max-false :
      (upper : Option Float64) (n : Float64)
      → ((m : Float64) → upper ≡ some m → fm.lt m n ≡ false)
      → above_max fm upper n ≡ false
  above_max-false none n h = refl
  above_max-false (some m) n h = h m refl

  check_number-accepted :
      (n : Float64)
      → is_int r.kind && not (fm.eq n (fm.integral n)) ≡ false
      → InBounds fm r n
      → check_number fm r key n ≡ ok (number n)
  unfolding check_number
  check_number-accepted n whole (lower, upper) =
      rw (whole, below_min-false r.min n lower, above_max-false r.max n upper) refl

  check_value-accepted :
      (k : FieldKind) (x : Value) → r.kind ≡ k → IsFit fm k r x → check_value fm k r key x ≡ ok x
  unfolding check_value parse_day
  check_value-accepted string_kind (text s) e f = refl
  check_value-accepted string_kind (number n) e (s, h) = cc
  check_value-accepted string_kind null e (s, h) = cc
  check_value-accepted string_kind other e (s, h) = cc
  check_value-accepted day_kind (text s) e (s', h, d) = let same : s ≡ s' = cc in rw (same, d) refl
  check_value-accepted day_kind (number n) e (s, h, d) = cc
  check_value-accepted day_kind null e (s, h, d) = cc
  check_value-accepted day_kind other e (s, h, d) = cc
  check_value-accepted number_kind (number n) e (n', h, b) =
      let same : n' ≡ n = cc in check_number-accepted n (rw e refl) (subst (InBounds fm r) same b)
  check_value-accepted number_kind (text s) e (n, h, b) = cc
  check_value-accepted number_kind null e (n, h, b) = cc
  check_value-accepted number_kind other e (n, h, b) = cc
  check_value-accepted int_kind (number n) e (n', h, w, b) =
      let same : n' ≡ n = cc in
      let whole = subst (λ x. fm.eq x (fm.integral x) ≡ true) same w in
      check_number-accepted n (rw (e, whole) refl) (subst (InBounds fm r) same b)
  check_value-accepted int_kind (text s) e (n, h, w, b) = cc
  check_value-accepted int_kind null e (n, h, w, b) = cc
  check_value-accepted int_kind other e (n, h, w, b) = cc

  present_accepted :
      (x : Value)
      → x ≢ null
      → Accepts fm r (some x)
      → keep_value (check_value fm r.kind r key x) ≡ ok (some x)
  present_accepted x real (o, inl (_, _, inl h)) = cc
  present_accepted x real (o, inl (_, _, inr h)) = absurd (real (some-injective x null h))
  present_accepted x real (o, inr (y, h, _, fit)) =
      let same : y ≡ x = some-injective y x (sym h) in
      ap keep_value (check_value-accepted r.kind x refl (subst (IsFit fm r.kind r) same fit))

  null_unfit : (k : FieldKind) → IsFit fm k r null → ⊥
  null_unfit string_kind (s, h) = cc
  null_unfit day_kind (s, h, d) = cc
  null_unfit number_kind (n, h, b) = cc
  null_unfit int_kind (n, h, w, b) = cc

  absent_accepted :
      (v : Option Value) → (v ≡ none) ⊎ (v ≡ some null) → Accepts fm r v → missing r key ≡ ok none
  absent_accepted v gone (o, inl (_, free, _)) = rw free refl
  absent_accepted v (inl h) (o, inr (y, e, _, fit)) = cc
  absent_accepted v (inr h) (o, inr (y, e, _, fit)) =
      let same : y ≡ null = some-injective y null (sym e ∙ h) in
      absurd (null_unfit r.kind (subst (IsFit fm r.kind r) same fit))

  pub check_field-accepted :
      (v : Option Value)
      → Accepts fm r v
      → (o : Option Value) × (check_field fm (some r) key v ≡ ok o)
  unfolding check_field
  check_field-accepted none a = (none, absent_accepted none (inl refl) a)
  check_field-accepted (some null) a = (none, absent_accepted (some null) (inr refl) a)
  check_field-accepted (some (text s)) a = (_, present_accepted (text s) (λ e. cc) a)
  check_field-accepted (some (number n)) a = (_, present_accepted (number n) (λ e. cc) a)
  check_field-accepted (some other) a = (_, present_accepted other (λ e. cc) a)

  -- An error that names the key.
  abbrev pub Names : Error → Type 0
  Names e = (message : String) × (e ≡ validation key message)

  missing-Names : (e : Error) → missing r key ≡ err e → Names e
  missing-Names e h = ("is required", ground arith)

  same-Names :
      (m : String) (e : Error) → ◌≡◌ {A = Result Value} (err (validation key m)) (err e) → Names e
  same-Names m e h = (m, ground arith)

  if-Names :
      (b : Bool) (m : String) (rest : Result Value) (e : Error)
      → (if b then err (validation key m) else rest) ≡ err e
      → (rest ≡ err e → Names e)
      → Names e
  if-Names true m rest e h k = same-Names m e h
  if-Names false m rest e h k = k h

  number-Names : (n : Float64) (e : Error) → check_number fm r key n ≡ err e → Names e
  unfolding check_number
  number-Names n e h = if-Names (is_int r.kind && not (fm.eq n (fm.integral n))) _ _ e h λ h'.
      if-Names (below_min fm r.min n) _ _ e h'
        λ h''. if-Names (above_max fm r.max n) _ _ e h'' λ no. cc

  day-Names : (s : String) (d : String ⊎ Day) (e : Error) → check_day fm key s d ≡ err e → Names e
  day-Names s (inl m) e h = same-Names m e h
  day-Names s (inr d) e h = cc

  value-Names : (k : FieldKind) (x : Value) (e : Error) → check_value fm k r key x ≡ err e → Names e
  unfolding check_value
  value-Names string_kind (text s) e h = cc
  value-Names string_kind (number n) e h = same-Names _ e h
  value-Names string_kind null e h = same-Names _ e h
  value-Names string_kind other e h = same-Names _ e h
  value-Names day_kind (text s) e h = day-Names s (parse_day fm s) e h
  value-Names day_kind (number n) e h = same-Names _ e h
  value-Names day_kind null e h = same-Names _ e h
  value-Names day_kind other e h = same-Names _ e h
  value-Names number_kind (number n) e h = number-Names n e h
  value-Names number_kind (text s) e h = same-Names _ e h
  value-Names number_kind null e h = same-Names _ e h
  value-Names number_kind other e h = same-Names _ e h
  value-Names int_kind (number n) e h = number-Names n e h
  value-Names int_kind (text s) e h = same-Names _ e h
  value-Names int_kind null e h = same-Names _ e h
  value-Names int_kind other e h = same-Names _ e h

  kept-Names : (x : Result Value) (e : Error) → keep_value x ≡ err e → x ≡ err e
  kept-Names (ok v) e h = cc
  kept-Names (err x) e h = ground arith

  pub field-Names : (v : Option Value) (e : Error) → check_field fm (some r) key v ≡ err e → Names e
  unfolding check_field
  field-Names none e h = missing-Names e h
  field-Names (some null) e h = missing-Names e h
  field-Names (some (text s)) e h = value-Names r.kind (text s) e (kept-Names _ e h)
  field-Names (some (number n)) e h = value-Names r.kind (number n) e (kept-Names _ e h)
  field-Names (some other) e h = value-Names r.kind other e (kept-Names _ e h)

  -- A failed check has a value that the rule does not accept.
  pub field_unaccepted :
      (v : Option Value) (e : Error) → check_field fm (some r) key v ≡ err e → Accepts fm r v → ⊥
  field_unaccepted v e h a =
      let (o, fine) = check_field-accepted v a in let both = sym fine ∙ h in cc
