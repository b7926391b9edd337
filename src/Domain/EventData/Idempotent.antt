-- ===== src/Domain/EventData/Idempotent.antt =====
-- Validating a validated payload changes nothing.
use cellarkeep_server.Prelude.{
  String, Option, none, some, List, [], ◌∷◌, ◌≡◌, refl, sym, ap, ◌∙◌, inl, inr, subst,
}
use cellarkeep_server.Store.Action.{ok}
use cellarkeep_server.Domain.EventData.{
  Value, Data, at, Formats, FieldRule, Rules, check_field, validate_keys, keys_of, validate_by,
  validate_event_data, event_rules,
}
use cellarkeep_server.Domain.EventData.Clean.{
  check_field-ok, validate_keys-checked, validate_event_data-by, validate_by-ok,
}

-- What a check keeps passes the check.
check_field-again :
    (fm : Formats) (r : Option FieldRule) (key : String) (v o : Option Value)
    → check_field fm r key v ≡ ok o
    → check_field fm r key o ≡ ok o
unfolding check_field
check_field-again fm none key v o h = h
check_field-again fm (some r) key v o h = elim (check_field-ok fm (some r) key v o h) [
  | inl (gone, free, _) ↦ rw (gone, free) refl
  | inr (x, vx, ox, _) ↦ subst (λ w. check_field fm (some r) key w ≡ ok o) (vx ∙ sym ox) h
]

validate_keys-same :
    (fm : Formats) (rules : Rules) (given given' : Data)
    → ((key : String)
        → check_field fm (at rules key) key (at given key)
          ≡ check_field fm (at rules key) key (at given' key))
    → (ks : List String) → validate_keys fm rules given ks ≡ validate_keys fm rules given' ks
unfolding validate_keys
validate_keys-same fm rules given given' same [] = refl
validate_keys-same fm rules given given' same (k ∷ ks) =
    rw (same k, validate_keys-same fm rules given given' same ks) refl

-- A validated payload is valid, and validating it again returns it as it is.
pub validate_again :
    (fm : Formats) (t : String) (given out : Data)
    → validate_event_data fm t given ≡ ok out
    → validate_event_data fm t out ≡ ok out
unfolding validate_by
validate_again fm t given out h =
    let (rules, known, valid) =
      validate_by-ok fm t given (at (event_rules fm) t) out
        (sym (validate_event_data-by fm t given) ∙ h) in
    let check = λ (key : String). validate_keys-checked fm rules given out key valid in
    let same =
      validate_keys-same fm rules out given
        (λ key.
          check_field-again fm (at rules key) key (at given key) (at out key) (check key)
          ∙ sym (check key))
        (keys_of rules) in
    validate_event_data-by fm t out ∙ ap (λ m. validate_by fm t m out) known ∙ same ∙ valid
