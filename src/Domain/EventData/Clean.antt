-- ===== src/Domain/EventData/Clean.antt =====
-- What ValidateEventData returns, key by key.
pub mod Keys
pub mod Fields
pub mod First
pub mod Faults
use mathlib.Core.Option.{some-injective}
use cellarkeep_server.Prelude.{
  String, ◌∙◌, eq_iff, subst, sym, ap, Bool, true, false, not, ◌&&◌, ◌||◌, Option, none, some, List,
  [], ◌∷◌, map, string_eq, ◌==◌, ◌≡◌, refl, ◌⊎◌, inl, inr, sort_by, insert_by, has_row, Bool-cases,
  Option-cases, if◌then◌else◌, arith, is_some,
}
use cellarkeep_server.Prelude.Text.{before}
use cellarkeep_server.Store.Model.{Float64}
use cellarkeep_server.Store.Action.{Error, Result, Result-cases, ok, err}
use cellarkeep_server.Domain.EventData.{
  Value, text, number, null, other, Data, at, Formats, FieldKind, string_kind, number_kind,
  int_kind, day_kind, FieldRule, Rules, below_min, above_max, check_number, check_value,
  check_field, put, then_put, validate_keys, keys_of, validate_by, validate_event_data, event_rules,
  missing, keep_value, is_int, parse_day,
}
use cellarkeep_server.Domain.EventData.Clean.Keys.{
  keys_of-at, kept, is_fine, checked, validate_keys-at,
}
use cellarkeep_server.Domain.EventData.Clean.First.{validate_keys-first}
use cellarkeep_server.Domain.EventData.Clean.Faults.{Accepts, Names, field-Names, field_unaccepted}
pub use cellarkeep_server.Domain.EventData.Clean.Fields.{Cleaned, check_field-ok}

fine-kept :
    (x : Result (Option Value)) (o : Option Value) → is_fine x ≡ true → o ≡ kept x → x ≡ ok o
fine-kept (ok o') o f e = rw e refl
fine-kept (err x) o f e = cc

no_rule :
    (fm : Formats) (key : String) (v : Option Value) (r : Option FieldRule) (o : Option Value)
    → r ≡ none
    → o ≡ none
    → check_field fm r key v ≡ ok o
unfolding check_field
no_rule fm key v r o e e' = rw (e, e') refl

-- Every check of a successful loop over all rules succeeds with what is in the result.
pub validate_keys-checked :
    (fm : Formats) (rules : Rules) (given out : Data) (key : String)
    → validate_keys fm rules given (keys_of rules) ≡ ok out
    → check_field fm (at rules key) key (at given key) ≡ ok (at out key)
validate_keys-checked fm rules given out key h =
    let (same, fine) = validate_keys-at fm rules given (keys_of rules) out key h in
    let has = keys_of-at rules key in
    let full : is_some (at rules key) ≡ true
        → check_field fm (at rules key) key (at given key) ≡ ok (at out key) =
      λ t.
        fine-kept (checked fm rules given key) (at out key) (fine (has ∙ t))
          (same ∙ rw (has, t) refl) in
    elim (Option-cases (at rules key)) [
      | inl none' ↦
          no_rule fm key (at given key) (at rules key) (at out key) none'
            (same ∙ rw (has, none') refl)
      | inr (r, e) ↦ full (rw e refl)
    ]

module _ (fm : Formats) (t : String) (given : Data) where
  pub validate_event_data-by :
      validate_event_data fm t given ≡ validate_by fm t (at (event_rules fm) t) given
  unfolding validate_event_data
  validate_event_data-by = refl

  pub validate_by-ok :
      (r : Option Rules) (out : Data)
      → validate_by fm t r given ≡ ok out
      → (rules : Rules) × (r ≡ some rules) × (validate_keys fm rules given (keys_of rules) ≡ ok out)
  unfolding validate_by
  validate_by-ok none out h = cc
  validate_by-ok (some rules) out h = (rules, refl, h)

  -- A validated payload holds, under every key, what the rule of the key lets through: nothing under a key
  -- without a rule, and otherwise the unchanged value of the input, which is of the kind and within the
  -- bounds of the rule, or nothing if the input has no value there and the rule does not require one.
  pub validate-Cleaned :
      (out : Data) (key : String)
      → validate_event_data fm t given ≡ ok out
      → (rules : Rules) × (at (event_rules fm) t ≡ some rules)
        × Cleaned fm (at rules key) (at given key) (at out key)
  validate-Cleaned out key h =
      let (rules, known, valid) =
        validate_by-ok (at (event_rules fm) t) out (sym validate_event_data-by ∙ h) in
      (
        rules,
        known,
        check_field-ok fm (at rules key) key (at given key) (at out key)
            (validate_keys-checked fm rules given out key valid),
      )

  accepted :
      (rules : Rules) (j : String) (q : FieldRule)
      → at rules j ≡ some q
      → (x : Result (Option Value)) → checked fm rules given j ≡ x
      → is_fine x ≡ true
      → Accepts fm q (at given j)
  accepted rules j q is (ok o) e fine = (
    o,
    check_field-ok fm (some q) j (at given j) o
        (subst (λ m. check_field fm m j (at given j) ≡ ok o) is e),
  )
  accepted rules j q is (err x) e fine = cc

  -- Validation of an event of a known type fails exactly if there is a rule that does not accept what the
  -- payload has, or has not, under its key; and then the error names the first such key in the order of
  -- texts. A rule accepts a value of its kind within its bounds, and no value or null unless it requires one.
  pub validate_fails :
      (rules : Rules)
      → at (event_rules fm) t ≡ some rules
      → ((e : Error)
          → validate_event_data fm t given ≡ err e
          → (key : String) × (r : FieldRule) × (at rules key ≡ some r)
            × Names fm r key e
            × (Accepts fm r (at given key) → ⊥)
            × ((j : String) (q : FieldRule)
                → before j key ≡ true
                → at rules j ≡ some q
                → Accepts fm q (at given j)))
        × ((key : String) (r : FieldRule)
            → at rules key ≡ some r
            → (Accepts fm r (at given key) → ⊥)
            → (e : Error) × (validate_event_data fm t given ≡ err e))
  unfolding validate_by
  validate_fails rules known = (
    λ e h.
        let (key, has, failed, earlier) =
          validate_keys-first fm rules given e
            (sym (ap (λ m. validate_by fm t m given) known) ∙ sym validate_event_data-by ∙ h) in
        elim (Option-cases (at rules key)) [
          | inl none' ↦ absurd (let there = sym (keys_of-at rules key) ∙ has in ground arith)
          | inr (r, is) ↦
              let fails = subst (λ o. check_field fm o key (at given key) ≡ err e) is failed in
              (
                key,
                r,
                is,
                field-Names fm r key (at given key) e fails,
                field_unaccepted fm r key (at given key) e fails,
                λ j q b is'.
                    let fine = earlier j b (keys_of-at rules j ∙ rw is' refl) in
                    accepted rules j q is' (checked fm rules given j) refl fine,
              )
        ],
    λ key r is fault. elim (Result-cases (validate_event_data fm t given)) [
      | inr failed ↦ failed
      | inl (out, valid) ↦
          let (rules', known', clean) = validate-Cleaned out key valid in
          let same : rules' ≡ rules = some-injective rules' rules (sym known' ∙ known) in
          absurd (
            fault (
              at out key,
              subst (λ o. Cleaned fm o (at given key) (at out key)) (ap (λ x. at x key) same ∙ is)
                  clean,
            ))
    ],
  )
