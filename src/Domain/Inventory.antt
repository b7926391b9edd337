-- ===== src/Domain/Inventory.antt =====
-- internal/domain/inventory.go: the stock of ingredients. The arithmetic is Go's float64, behind the
-- record `Floats`; round3 and ScaleQty are in internal/domain/schedule.go.
pub mod Stock
pub mod Deduction
use cellarkeep_server.Prelude.{ℕ, Bool, List, map, Option, none, some, if◌then◌else◌}
use cellarkeep_server.Store.Model.{Uuid, Float64, Float32, Ingredient, InventoryItem}
use cellarkeep_server.Store.Action.{
  Floats, Runtime, Store, Action, pure, ◌>>=◌, ◌>>◌, with_tx, resume, Result,
}
use cellarkeep_server.Store.Inventory.{
  CreateIngredientParams, ListInventoryRow, create_ingredient, ensure_inventory_item,
  set_inventory_quantity, list_inventory,
}

pub record InventoryRow : Type 0 where
  pub ingredient : Ingredient
  pub stock : Float64
  pub cost_per_unit : Option Float64

abbrev pub widen_cost : Floats → Option Float32 → Option Float64
widen_cost fl none = none
widen_cost fl (some c) = some (fl.widen c)

abbrev pub domain_row : Floats → ListInventoryRow → InventoryRow
domain_row fl r = record {
  ingredient = r.ingredient;
  stock = fl.widen r.stock;
  cost_per_unit = widen_cost fl r.cost_per_unit;
}

-- Inventory.List
unfoldable pub list : Store → Action (List InventoryRow)
list s = list_inventory s >>= λ rows. pure (map (domain_row s.runtime.floats) rows)

-- Inventory.CreateIngredient
unfoldable pub create : Store → CreateIngredientParams → Action Ingredient
create s p = create_ingredient s p

-- round3
unfoldable pub round3 : Floats → Float64 → Float64
round3 fl n = fl.div (fl.round (fl.mul n (fl.of_ℕ 1000))) (fl.of_ℕ 1000)

-- ScaleQty
unfoldable pub scale_qty : Floats → Float64 → Float64 → Float64 → Float64
unfolding round3
scale_qty fl qty_per_base base_volume_l actual_volume_l =
    if fl.le base_volume_l (fl.of_ℕ 0)
    then fl.of_ℕ 0
    else round3 fl (fl.div (fl.mul qty_per_base actual_volume_l) base_volume_l)

-- The level that AdjustStock sets.
unfoldable pub next_level : Floats → Float32 → Float64 → Float64
unfolding round3
next_level fl quantity delta = fl.max (fl.of_ℕ 0) (round3 fl (fl.add (fl.widen quantity) delta))

unfoldable pub adjust_body : Store → Uuid → Float64 → Action Float64
unfolding next_level
adjust_body s ingredient_id delta = do
  item ← ensure_inventory_item s ingredient_id
  let next = next_level s.runtime.floats item.quantity delta
  set_inventory_quantity s item.id (s.runtime.floats.narrow next)
  pure next

-- Inventory.AdjustStock
unfoldable pub adjust_stock : Store → Uuid → Float64 → Action Float64
unfolding adjust_body
adjust_stock s ingredient_id delta = with_tx s (adjust_body s ingredient_id delta)

-- DeductForAddition, inside the caller's transaction: what is taken, and what is short.
unfoldable pub deduct_for_addition : Store → Uuid → Float64 → Action (Float64 × Float64)
unfolding round3
deduct_for_addition s ingredient_id qty = do
  item ← ensure_inventory_item s ingredient_id
  let fl = s.runtime.floats
  let have = fl.widen item.quantity
  let deducted = round3 fl (fl.min have qty)
  let short = round3 fl (fl.sub qty deducted)
  if fl.lt (fl.of_ℕ 0) deducted
      then set_inventory_quantity s item.id (fl.narrow (round3 fl (fl.sub have deducted)))
      else pure tt
  pure (deducted, short)
