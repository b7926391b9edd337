-- ===== src/Prelude/Lists.antt =====
-- Rows of a table: lists that are searched, changed and thinned out by a Boolean test.
use Prim.Native.Nat.{ℕ, suc, ◌+◌}
use mathlib.Core.Path.{◌≡◌, refl, subst}
use mathlib.Core.Logic.{inl, inr}
use mathlib.Core.Bool.{Bool, true, false, ◌||◌}
use mathlib.Core.Option.{Option, none, some}
use mathlib.Core.List.{List, [], ◌∷◌}
use native.Mathlib.Omega.{arith}
use cellarkeep_server.Prelude.Tests.{if◌then◌else◌, Bool-cases}

-- Every element satisfies a predicate; it computes to a tuple.
abbrev pub All {ℓ κ} : {A : Type ℓ} → (A → Type κ) → List A → Type κ
All P [] = Unit
All P (x ∷ xs) = P x × All P xs

module _ {ℓ} {A : Type ℓ} where
  abbrev pub length : List A → ℕ
  length [] = 0
  length (x ∷ xs) = suc (length xs)

  -- The first row that passes the test.
  abbrev pub find : (A → Bool) → List A → Option A
  find p [] = none
  find p (x ∷ xs) = if p x then some x else find p xs

  -- All rows that pass the test, in order.
  abbrev pub select : (A → Bool) → List A → List A
  select p [] = []
  select p (x ∷ xs) = let rest = select p xs in if p x then x ∷ rest else rest

  -- `update … set … where`
  abbrev pub update_where : (A → Bool) → (A → A) → List A → List A
  update_where p f [] = []
  update_where p f (x ∷ xs) = (if p x then f x else x) ∷ update_where p f xs

  -- `delete from … where`
  abbrev pub delete_where : (A → Bool) → List A → List A
  delete_where p [] = []
  delete_where p (x ∷ xs) = let rest = delete_where p xs in if p x then rest else x ∷ rest

  abbrev pub has_row : (A → Bool) → List A → Bool
  has_row p [] = false
  has_row p (x ∷ xs) = p x || has_row p xs

  -- How many rows pass the test.
  abbrev pub count_where : (A → Bool) → List A → ℕ
  count_where p [] = 0
  count_where p (x ∷ xs) = (if p x then 1 else 0) + count_where p xs

  pub find-passes : (p : A → Bool) (xs : List A) (a : A) → find p xs ≡ some a → p a ≡ true
  find-passes p [] a h = ground arith
  find-passes p (x ∷ xs) a h = ground (arith, find-passes p xs a)

  pub find-All :
      (P : A → Type 0) (p : A → Bool) (xs : List A) (a : A) → All P xs → find p xs ≡ some a → P a
  find-All P p [] a h e = cc
  find-All P p (x ∷ xs) a h e = elim (Bool-cases (p x)) [
    | inl t ↦ subst P (ground arith) h.0
    | inr f ↦ find-All P p xs a h.1 (ground arith)
  ]

  pub All-update_where :
      (P : A → Type 0) (p : A → Bool) (f : A → A) (xs : List A)
      → ((a : A) → P a → P (f a))
      → All P xs
      → All P (update_where p f xs)
  All-update_where P p f [] k h = tt
  All-update_where P p f (x ∷ xs) k h = (
    elim (Bool-cases (p x)) [ inl t ↦ rw t (k x h.0) | inr f ↦ rw f h.0 ],
    All-update_where P p f xs k h.1,
  )

  pub All-delete_where :
      (P : A → Type 0) (p : A → Bool) (xs : List A) → All P xs → All P (delete_where p xs)
  All-delete_where P p [] h = tt
  All-delete_where P p (x ∷ xs) h = elim (Bool-cases (p x)) [
    | inl t ↦ rw t (All-delete_where P p xs h.1)
    | inr f ↦ rw f (h.0, All-delete_where P p xs h.1)
  ]

  pub length-update_where :
      (p : A → Bool) (f : A → A) (xs : List A) → length (update_where p f xs) ≡ length xs
  length-update_where p f [] = refl
  length-update_where p f (x ∷ xs) = omega (arith, length-update_where p f xs)

module _ {ℓ} {A : Type ℓ} (q p : A → Bool) (f : A → A) where
  -- A change that keeps a test on the row keeps it on the table.
  pub has_row-update_where :
      ((a : A) → q a ≡ true → q (f a) ≡ true)
      → (xs : List A) → has_row q xs ≡ true
      → has_row q (update_where p f xs) ≡ true
  has_row-update_where kept [] h = h
  has_row-update_where kept (x ∷ xs) h = ground (arith, kept x, has_row-update_where kept xs)

  pub has_row-update_where-false :
      ((a : A) → q a ≡ false → q (f a) ≡ false)
      → (xs : List A) → has_row q xs ≡ false
      → has_row q (update_where p f xs) ≡ false
  has_row-update_where-false shut [] h = h
  has_row-update_where-false shut (x ∷ xs) h =
      ground (arith, shut x, has_row-update_where-false shut xs)
