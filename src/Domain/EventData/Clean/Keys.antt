-- ===== src/Domain/EventData/Clean/Keys.antt =====
-- The loop of ValidateEventData over the keys of the rules.
use cellarkeep_server.Prelude.{
  String, ◌∙◌, eq_iff, subst, Bool, true, false, ◌||◌, Option, none, some, List, [], ◌∷◌, map,
  string_eq, ◌==◌, ◌≡◌, refl, ◌⊎◌, inl, inr, sort_by, insert_by, has_row, Bool-cases, if◌then◌else◌,
  arith, is_some,
}
use cellarkeep_server.Prelude.Text.{before}
use cellarkeep_server.Store.Action.{Error, Result, ok, err}
use cellarkeep_server.Domain.EventData.{
  Value, Data, at, Formats, FieldRule, Rules, check_field, put, then_put, validate_keys, keys_of,
}

abbrev pub has_key : String → List String → Bool
has_key key ks = has_row (λ (k : String). k == key) ks

has_row-insert_by :
    {A : Type 0} (p : A → Bool) (lt : A → A → Bool) (a : A) (xs : List A)
    → has_row p (insert_by lt a xs) ≡ p a || has_row p xs
has_row-insert_by p lt a [] = refl
has_row-insert_by p lt a (x ∷ xs) = ground (arith, has_row-insert_by p lt a xs)

has_row-sort_by :
    {A : Type 0} (p : A → Bool) (lt : A → A → Bool) (xs : List A)
    → has_row p (sort_by lt xs) ≡ has_row p xs
has_row-sort_by p lt [] = refl
has_row-sort_by p lt (x ∷ xs) =
    rw (has_row-insert_by p lt x (sort_by lt xs), has_row-sort_by p lt xs) refl

has_key-at :
    (rules : Rules) (key : String)
    → has_key key (map (λ (p : String × FieldRule). p.0) rules) ≡ is_some (at rules key)
has_key-at [] key = refl
has_key-at ((k, r) ∷ rules) key = ground (arith, has_key-at rules key)

pub keys_of-at :
    (rules : Rules) (key : String) → has_key key (keys_of rules) ≡ is_some (at rules key)
keys_of-at rules key =
    has_row-sort_by _ before (map (λ (p : String × FieldRule). p.0) rules) ∙ has_key-at rules key

-- What a successful check keeps.
abbrev pub kept : Result (Option Value) → Option Value
kept (ok o) = o
kept (err e) = none

abbrev pub is_fine : {A : Type 0} → Result A → Bool
is_fine (ok a) = true
is_fine (err e) = false

module _ (key : String) (out : Data) (x : Result (Option Value)) where
  put-same :
      (k : String) (o : Option Value) (b : Bool)
      → k == key ≡ true
      → x ≡ ok o
      → at out key ≡ (if b then kept x else none)
      → (at (put k o out) key ≡ kept x) × (true ≡ true → is_fine x ≡ true)
  put-same k none true same e h = (rw (h, e) refl, λ _. rw e refl)
  put-same k none false same e h = (rw (h, e) refl, λ _. rw e refl)
  put-same k (some v) b same e h = (rw (same, e) refl, λ _. rw e refl)

  put-apart : (k : String) (o : Option Value) → k == key ≡ false → at (put k o out) key ≡ at out key
  put-apart k none apart = refl
  put-apart k (some v) apart = rw apart refl

then_put-ok :
    (k : String) (f : Result (Option Value)) (rest : Result Data) (out : Data)
    → then_put k f rest ≡ ok out
    → (o : Option Value) × (out' : Data) × (f ≡ ok o) × (rest ≡ ok out') × (out ≡ put k o out')
then_put-ok k (ok o) (ok out') out h = (o, out', refl, refl, cc)
then_put-ok k (ok o) (err e) out h = cc
then_put-ok k (err e) rest out h = cc

then_put-err :
    (k : String) (f : Result (Option Value)) (rest : Result Data) (e : Error)
    → then_put k f rest ≡ err e
    → (f ≡ err e) ⊎ (rest ≡ err e)
then_put-err k (ok o) (ok out') e h = cc
then_put-err k (ok o) (err x) e h = inr h
then_put-err k (err x) rest e h = inl (ground arith)

nil-at :
    (out : Data) (key : String) (P : Type 0)
    → ok [] ≡ ok out
    → (at out key ≡ none) × (false ≡ true → P)
nil-at [] key P h = (refl, λ no. cc)
nil-at (x ∷ out) key P h = (cc, λ no. cc)

module _ (fm : Formats) (rules : Rules) (given : Data) where
  -- What is kept under a key.
  abbrev pub checked : String → Result (Option Value)
  checked key = check_field fm (at rules key) key (at given key)

  -- The loop succeeds only if every check does, and then it keeps what they keep.
  pub validate_keys-at :
      (ks : List String) (out : Data) (key : String)
      → validate_keys fm rules given ks ≡ ok out
      → (at out key ≡ (if has_key key ks then kept (checked key) else none))
        × (has_key key ks ≡ true → is_fine (checked key) ≡ true)
  unfolding validate_keys
  validate_keys-at [] out key h = nil-at out key _ h
  validate_keys-at (k ∷ ks) out key h =
      let (o, out', f, rest, e) =
        then_put-ok k (checked k) (validate_keys fm rules given ks) out h in
      let (ih, fine) = validate_keys-at ks out' key rest in
      elim (Bool-cases (k == key)) [
        | inl same ↦
            rw (e, same)
              (put-same key out' (checked key) k o (has_key key ks) same
                (subst (λ j. checked j ≡ ok o) ((eq_iff k key).0 same) f) ih)
        | inr apart ↦ rw (e, apart, put-apart key out' (checked key) k o apart) (ih, fine)
      ]
