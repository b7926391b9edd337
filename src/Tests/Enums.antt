-- ===== src/Tests/Enums.antt =====
-- Witnesses for the enums of the contract.
use cellarkeep_server.Prelude.{String, true, false, has_row, string_eq, ◌==◌, ◌≡◌, ◌↔◌, refl}
use cellarkeep_server.Store.Enums.{beverage_type}
use cellarkeep_server.Store.Action.{err, database, invalid_enum}
use cellarkeep_server.Store.Users.{CreateUserParams, insert_user}
use cellarkeep_server.Store.Vessels.{VesselParams, insert_vessel}
use cellarkeep_server.Store.Inventory.{CreateIngredientParams, insert_ingredient}
use cellarkeep_server.Api.Enums.{
  beverage_valid, ingredient_category_valid, user_role_valid, vessel_kind_valid, valid_decides,
}
use cellarkeep_server.Tests.{runtime1, world1}

valid_decides_example :
    ((p : VesselParams)
      → (vessel_kind_valid p.kind ≡ false)
        ↔ (insert_vessel runtime1 p 1 world1.tables ≡ err (database invalid_enum)))
    × ((p : CreateIngredientParams)
        → (ingredient_category_valid p.category ≡ false)
          ↔ (insert_ingredient runtime1 p 1 world1.tables ≡ err (database invalid_enum)))
    × ((p : CreateUserParams)
        → (user_role_valid p.role ≡ false)
          ↔ (insert_user runtime1 p 1 world1.tables ≡ err (database invalid_enum)))
    × ((e : String) → beverage_valid e ≡ has_row (λ b. b == e) beverage_type.values)
valid_decides_example = valid_decides runtime1 1 world1.tables

-- A kind that neither knows.
keg_valid : vessel_kind_valid "keg" ≡ true
unfolding vessel_kind_valid
keg_valid = refl

amphora_valid : vessel_kind_valid "amphora" ≡ false
unfolding vessel_kind_valid
amphora_valid = refl
