-- ===== src/Api/Handlers/Stock.antt =====
-- internal/api/handler_inventory.go: the handlers of the stock.
use cellarkeep_server.Prelude.{map, Option, none, some}
use cellarkeep_server.Store.Model.{Uuid, Float32, Float64, Ingredient}
use cellarkeep_server.Store.Action.{Floats, pure, of_result, ◌>>=◌}
use cellarkeep_server.Store.Inventory.{CreateIngredientParams}
use cellarkeep_server.Http.{Response, write_json}
use cellarkeep_server.Domain.Inventory.{InventoryRow, list, create, adjust_stock}
use cellarkeep_server.Api.Types.{
  Ingredient as ApiIngredient, InventoryRow as ApiInventoryRow, IngredientInput, StockAdjust, Reply,
  ingredient_reply, inventory_list, stock_reply, Decoded, decode,
}
use cellarkeep_server.Api.Handlers.{Handlers, Server, handle}

abbrev pub ingredient_params : IngredientInput → CreateIngredientParams
ingredient_params input = record { name = input.name; category = input.category; unit = input.unit }

-- ingredientJSON
abbrev pub ingredient_json : Ingredient → ApiIngredient
ingredient_json i = record { category = i.category; id = i.id; name = i.name; unit = i.unit }

-- CreateIngredient
unfoldable pub create_ingredient :
    Handlers → Decoded IngredientInput → Server → Response Reply × Server
create_ingredient h body = handle (do
  input ← of_result (decode body)
  i ← create h.store (ingredient_params input)
  pure (write_json 201 (ingredient_reply (ingredient_json i))))

abbrev pub narrow_cost : Floats → Option Float64 → Option Float32
narrow_cost fl none = none
narrow_cost fl (some c) = some (fl.narrow c)

abbrev pub row_json : Floats → InventoryRow → ApiInventoryRow
row_json fl r = record {
  cost_per_unit = narrow_cost fl r.cost_per_unit;
  ingredient = ingredient_json r.ingredient;
  stock = fl.narrow r.stock;
}

-- ListInventory
unfoldable pub list_inventory : Handlers → Server → Response Reply × Server
list_inventory h = handle (do
  rows ← list h.store
  pure (write_json 200 (inventory_list (map (row_json h.store.runtime.floats) rows))))

-- AdjustStock
unfoldable pub adjust : Handlers → Uuid → Decoded StockAdjust → Server → Response Reply × Server
adjust h ingredient_id body = handle (do
  input ← of_result (decode body)
  n ← adjust_stock h.store ingredient_id (h.store.runtime.floats.widen input.delta)
  pure (write_json 200 (stock_reply n)))
