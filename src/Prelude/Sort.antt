-- ===== src/Prelude/Sort.antt =====
-- A stable sort by a strict order, as sort.SliceStable and `order by` use it.
use mathlib.Core.Path.{◌≡◌, refl}
use mathlib.Core.Logic.{inl, inr}
use mathlib.Core.Bool.{Bool}
use mathlib.Core.List.{List, [], ◌∷◌, map}
use cellarkeep_server.Prelude.Tests.{if◌then◌else◌, Bool-cases}
use cellarkeep_server.Prelude.Lists.{All, select}

module _ {ℓ} {A : Type ℓ} where
  -- An element goes in front of the first one that is not before it.
  abbrev pub insert_by : (A → A → Bool) → A → List A → List A
  insert_by lt a [] = a ∷ []
  insert_by lt a (x ∷ xs) = let rest = insert_by lt a xs in if lt x a then x ∷ rest else a ∷ x ∷ xs

  abbrev pub sort_by : (A → A → Bool) → List A → List A
  sort_by lt [] = []
  sort_by lt (x ∷ xs) = insert_by lt x (sort_by lt xs)

  pub All-insert_by {κ} :
      (P : A → Type κ) (lt : A → A → Bool) (a : A) (xs : List A)
      → P a
      → All P xs
      → All P (insert_by lt a xs)
  All-insert_by P lt a [] p h = (p, tt)
  All-insert_by P lt a (x ∷ xs) p (q, h) = elim (Bool-cases (lt x a)) [
    | inl before ↦ rw before (q, All-insert_by P lt a xs p h)
    | inr behind ↦ rw behind (p, (q, h))
  ]

  pub All-sort_by {κ} :
      (P : A → Type κ) (lt : A → A → Bool) (xs : List A) → All P xs → All P (sort_by lt xs)
  All-sort_by P lt [] h = tt
  All-sort_by P lt (x ∷ xs) (p, h) = All-insert_by P lt x (sort_by lt xs) p (All-sort_by P lt xs h)

  pub All-select {κ} :
      (P : A → Type κ) (p : A → Bool) (xs : List A) → All P xs → All P (select p xs)
  All-select P p [] h = tt
  All-select P p (x ∷ xs) (q, h) = elim (Bool-cases (p x)) [
    | inl kept ↦ rw kept (q, All-select P p xs h)
    | inr left ↦ rw left (All-select P p xs h)
  ]

  -- A function that keeps the order commutes with sorting, and one that keeps a test with selecting.
  module _ (f : A → A) (lt : A → A → Bool) (same : (x y : A) → lt (f x) (f y) ≡ lt x y) where
    pub insert_by-map :
        (a : A) (xs : List A) → insert_by lt (f a) (map f xs) ≡ map f (insert_by lt a xs)
    insert_by-map a [] = refl
    insert_by-map a (x ∷ xs) = elim (Bool-cases (lt x a)) [
      | inl before ↦ rw (same x a, before, insert_by-map a xs) refl
      | inr behind ↦ rw (same x a, behind) refl
    ]

    pub sort_by-map : (xs : List A) → sort_by lt (map f xs) ≡ map f (sort_by lt xs)
    sort_by-map [] = refl
    sort_by-map (x ∷ xs) = rw (sort_by-map xs) (insert_by-map x (sort_by lt xs))

  pub select-map :
      (f : A → A) (p : A → Bool)
      → ((x : A) → p (f x) ≡ p x)
      → (xs : List A) → select p (map f xs) ≡ map f (select p xs)
  select-map f p same [] = refl
  select-map f p same (x ∷ xs) = elim (Bool-cases (p x)) [
    | inl kept ↦ rw (same x, kept, select-map f p same xs) refl
    | inr left ↦ rw (same x, left, select-map f p same xs) refl
  ]
