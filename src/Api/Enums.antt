-- ===== src/Api/Enums.antt =====
-- internal/api/server.gen.go: the enums of the contract, with their Valid methods, and what the database
-- makes of a value that they reject.
use cellarkeep_server.Prelude.{
  ℕ, String, Bool, true, false, not, List, [], ◌∷◌, has_row, string_eq, ◌==◌, ◌≡◌, ◌↔◌, refl, ◌∙◌,
  if◌then◌else◌, arith, eq_iff,
}
use cellarkeep_server.Store.Enums.{user_roles, vessel_kinds, ingredient_categories, beverage_type}
use cellarkeep_server.Store.Model.{Tables}
use cellarkeep_server.Store.Action.{Runtime, ok, err, database, invalid_enum, unique_violation}
use cellarkeep_server.Store.Users.{CreateUserParams, insert_user}
use cellarkeep_server.Store.Vessels.{VesselParams, insert_vessel}
use cellarkeep_server.Store.Inventory.{CreateIngredientParams, insert_ingredient}

-- A switch whose cases return true and whose default returns false.
abbrev pub is_case : List String → String → Bool
is_case [] e = false
is_case (c ∷ cs) e = if e == c then true else is_case cs e

-- Beverage.Valid
unfoldable pub beverage_valid : String → Bool
beverage_valid e = is_case ("cider" ∷ "mead" ∷ "wine" ∷ []) e

-- IngredientCategory.Valid
unfoldable pub ingredient_category_valid : String → Bool
ingredient_category_valid e =
    is_case ("chemical" ∷ "fermentable" ∷ "fruit" ∷ "nutrient" ∷ "other" ∷ "yeast" ∷ []) e

-- UserRole.Valid
unfoldable pub user_role_valid : String → Bool
user_role_valid e = is_case ("admin" ∷ "member" ∷ []) e

-- VesselKind.Valid
unfoldable pub vessel_kind_valid : String → Bool
vessel_kind_valid e = is_case ("barrel" ∷ "bucket" ∷ "carboy" ∷ "keg" ∷ "other" ∷ "tank" ∷ []) e

is_case-has_row : (cs : List String) (e : String) → is_case cs e ≡ has_row (λ c. c == e) cs
is_case-has_row [] e = refl
is_case-has_row (c ∷ cs) e = ground (arith, eq_iff e c, eq_iff c e, is_case-has_row cs e)

module _ (e : String) where
  vessel_kind_valid-eq : vessel_kind_valid e ≡ has_row (λ k. k == e) vessel_kinds
  unfolding vessel_kind_valid
  vessel_kind_valid-eq =
      is_case-has_row ("barrel" ∷ "bucket" ∷ "carboy" ∷ "keg" ∷ "other" ∷ "tank" ∷ []) e
      ∙ ground arith

  ingredient_category_valid-eq :
      ingredient_category_valid e ≡ has_row (λ k. k == e) ingredient_categories
  unfolding ingredient_category_valid
  ingredient_category_valid-eq =
      is_case-has_row ("chemical" ∷ "fermentable" ∷ "fruit" ∷ "nutrient" ∷ "other" ∷ "yeast" ∷ []) e
      ∙ ground arith

  user_role_valid-eq : user_role_valid e ≡ has_row (λ k. k == e) user_roles
  unfolding user_role_valid
  user_role_valid-eq = is_case-has_row ("admin" ∷ "member" ∷ []) e

  beverage_valid-eq : beverage_valid e ≡ has_row (λ k. k == e) beverage_type.values
  unfolding beverage_valid beverage_type
  beverage_valid-eq = is_case-has_row ("cider" ∷ "mead" ∷ "wine" ∷ []) e ∙ ground arith

-- An insert that tests the enum first.
refused_iff :
    {A : Type 0} (valid known taken : Bool) (a : A)
    → valid ≡ known
    → (valid ≡ false) ↔ (
        (if not known
          then err (database invalid_enum)
          else if taken
          then err (database unique_violation)
          else ok a)
        ≡ err (database invalid_enum))
refused_iff valid true true a e = (λ h. cc, λ h. cc)
refused_iff valid true false a e = (λ h. cc, λ h. cc)
refused_iff valid false taken a e = (λ h. refl, λ h. e)

-- The contract and the database have the same enums: a vessel, an ingredient or an account is refused by
-- the database for its kind, category or role exactly if the contract's Valid rejects it, whatever the
-- tables hold; and Beverage.Valid accepts exactly the values of the database's type.
pub valid_decides :
    (rt : Runtime) (t : ℕ) (db : Tables)
    → ((p : VesselParams)
        → (vessel_kind_valid p.kind ≡ false)
          ↔ (insert_vessel rt p t db ≡ err (database invalid_enum)))
      × ((p : CreateIngredientParams)
          → (ingredient_category_valid p.category ≡ false)
            ↔ (insert_ingredient rt p t db ≡ err (database invalid_enum)))
      × ((p : CreateUserParams)
          → (user_role_valid p.role ≡ false)
            ↔ (insert_user rt p t db ≡ err (database invalid_enum)))
      × ((e : String) → beverage_valid e ≡ has_row (λ b. b == e) beverage_type.values)
unfolding insert_vessel insert_ingredient insert_user
valid_decides rt t db = (
  λ p.
      refused_iff (vessel_kind_valid p.kind) (has_row (λ k. k == p.kind) vessel_kinds) _ _
        (vessel_kind_valid-eq p.kind),
  λ p.
      refused_iff (ingredient_category_valid p.category)
        (has_row (λ k. k == p.category) ingredient_categories) _ _
        (ingredient_category_valid-eq p.category),
  λ p.
      refused_iff (user_role_valid p.role) (has_row (λ k. k == p.role) user_roles) _ _
        (user_role_valid-eq p.role),
  beverage_valid-eq,
)
