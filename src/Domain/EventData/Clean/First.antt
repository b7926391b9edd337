-- ===== src/Domain/EventData/Clean/First.antt =====
-- The loop of ValidateEventData stops at the first key, in the order of texts, whose check fails.
use cellarkeep_server.Prelude.{
  String, eq_iff, subst, ap, true, false, Option, List, [], ◌∷◌, map, All, All-insert_by, string_eq,
  ◌==◌, nat_eq, ◌≡◌, refl, ◌⊎◌, inl, inr, sort_by, insert_by, Bool-cases, arith,
}
use cellarkeep_server.Prelude.Text.{before}
use cellarkeep_server.Store.Action.{Error, Result, ok, err}
use cellarkeep_server.Domain.EventData.{
  Value, Data, Formats, FieldRule, Rules, then_put, validate_keys, keys_of,
}
use cellarkeep_server.Domain.EventData.Clean.Keys.{has_key, is_fine, checked}

before_asym : (p q : String) → before p q ≡ true → before q p ≡ false
before_asym String.[] String.[] h = cc
before_asym String.[] (String.◌∷◌ d q) h = refl
before_asym (String.◌∷◌ c p) String.[] h = cc
before_asym (String.◌∷◌ c p) (String.◌∷◌ d q) h = ground (arith, before_asym p q)

before_cotrans : (p q r : String) → before p q ≡ false → before q r ≡ false → before p r ≡ false
before_cotrans String.[] String.[] r h k = k
before_cotrans String.[] (String.◌∷◌ d q) r h k = cc
before_cotrans (String.◌∷◌ c p) q String.[] h k = refl
before_cotrans (String.◌∷◌ c p) String.[] (String.◌∷◌ e r) h k = cc
before_cotrans (String.◌∷◌ c p) (String.◌∷◌ d q) (String.◌∷◌ e r) h k =
    ground (arith, before_cotrans p q r)

abbrev Ordered : List String → Type 0
Ordered [] = Unit {0}
Ordered (k ∷ ks) = All (λ j. before j k ≡ false) ks × Ordered ks

All-later :
    (a x : String) (xs : List String)
    → before x a ≡ false
    → All (λ j. before j x ≡ false) xs
    → All (λ j. before j a ≡ false) xs
All-later a x [] h all = tt
All-later a x (y ∷ ys) h (b, all) = (before_cotrans y x a b h, All-later a x ys h all)

Ordered-insert_by : (a : String) (xs : List String) → Ordered xs → Ordered (insert_by before a xs)
Ordered-insert_by a [] h = (tt, tt)
Ordered-insert_by a (x ∷ xs) (all, rest) = elim (Bool-cases (before x a)) [
  | inl ahead ↦ rw ahead (
    All-insert_by (λ j. before j x ≡ false) before a xs (before_asym x a ahead) all,
    Ordered-insert_by a xs rest,
  )
  | inr behind ↦ rw behind ((behind, All-later a x xs behind all), (all, rest))
]

Ordered-sort_by : (xs : List String) → Ordered (sort_by before xs)
Ordered-sort_by [] = tt
Ordered-sort_by (x ∷ xs) = Ordered-insert_by x (sort_by before xs) (Ordered-sort_by xs)

Ordered-keys_of : (rules : Rules) → Ordered (keys_of rules)
Ordered-keys_of rules = Ordered-sort_by (map (λ (p : String × FieldRule). p.0) rules)

then_put-first :
    (k : String) (f : Result (Option Value)) (rest : Result Data) (e : Error)
    → then_put k f rest ≡ err e
    → (f ≡ err e) ⊎ ((is_fine f ≡ true) × (rest ≡ err e))
then_put-first k (ok o) (ok out') e h = cc
then_put-first k (ok o) (err x) e h = inr (refl, h)
then_put-first k (err x) rest e h = inl (ground arith)

no_earlier :
    (k j : String) (ks : List String)
    → All (λ i. before i k ≡ false) ks
    → before j k ≡ true
    → has_key j ks ≡ true
    → ⊥
no_earlier k j [] all b has = cc
no_earlier k j (i ∷ is) (late, all) b has = elim (Bool-cases (i == j)) [
  | inl same ↦ let both = ap (λ x. before x k) ((eq_iff i j).0 same) in absurd (ground arith)
  | inr apart ↦ no_earlier k j is all b (ground arith)
]

module _ (fm : Formats) (rules : Rules) (given : Data) where
  -- All checks of keys before the failing one are fine.
  first_of :
      (ks : List String) (e : Error)
      → Ordered ks
      → validate_keys fm rules given ks ≡ err e
      → (key : String) × (has_key key ks ≡ true)
        × (checked fm rules given key ≡ err e)
        × ((j : String)
            → before j key ≡ true
            → has_key j ks ≡ true
            → is_fine (checked fm rules given j) ≡ true)
  unfolding validate_keys
  first_of [] e ordered h = cc
  first_of (k ∷ ks) e (all, ordered) h =
      elim (then_put-first k (checked fm rules given k) (validate_keys fm rules given ks) e h) [
        | inl first ↦ (
          k,
          rw ((eq_iff k k).1 refl) refl,
          first,
          λ j b has. absurd (no_earlier k j (k ∷ ks) (ground (arith, before_asym k k), all) b has),
        )
        | inr (fine, rest) ↦
            let (key, there, failed, others) = first_of ks e ordered rest in
            (
              key,
              ground arith,
              failed,
              λ j b has. elim (Bool-cases (k == j)) [
                | inl same ↦
                    subst (λ i. is_fine (checked fm rules given i) ≡ true) ((eq_iff k j).0 same)
                      fine
                | inr apart ↦ others j b (ground arith)
              ],
            )
      ]

  pub validate_keys-first :
      (e : Error)
      → validate_keys fm rules given (keys_of rules) ≡ err e
      → (key : String) × (has_key key (keys_of rules) ≡ true)
        × (checked fm rules given key ≡ err e)
        × ((j : String)
            → before j key ≡ true
            → has_key j (keys_of rules) ≡ true
            → is_fine (checked fm rules given j) ≡ true)
  validate_keys-first e h = first_of (keys_of rules) e (Ordered-keys_of rules) h
