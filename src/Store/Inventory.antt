-- ===== src/Store/Inventory.antt =====
-- internal/store/gen/inventory.sql.go and ingredients.sql.go: the queries on ingredients and stock.
use cellarkeep_server.Prelude.{
  ℕ, String, Bool, Option, none, some, List, [], ◌∷◌, map, find, has_row, update_where, sort_by,
  nat_eq, string_eq, ◌==◌, ◌||◌, ◌&&◌, ◌+◌, not, ltb, if◌then◌else◌,
}
use cellarkeep_server.Store.Model.{
  Tables, Uuid, Time, Float32, Ingredient, InventoryItem, ingredient_categories,
}
use cellarkeep_server.Store.Action.{
  Runtime, Store, Action, Statement, Result, ok, err, database, unique_violation,
  foreign_key_violation, invalid_enum, run, reading, one,
}

pub record CreateIngredientParams : Type 0 where
  pub name : String
  pub category : String
  pub unit : String

unfoldable pub insert_ingredient : Runtime → CreateIngredientParams → Statement Ingredient
insert_ingredient rt p t db =
    let row : Ingredient = record {
      id = rt.uuid t;
      name = p.name;
      category = p.category;
      unit = p.unit;
    } in
    if not (has_row (λ c. c == p.category) ingredient_categories)
    then err (database invalid_enum)
    else if has_row (λ (i : Ingredient). i.id == rt.uuid t) db.ingredients
    then err (database unique_violation)
    else ok (row, record db { ingredients = row ∷ db.ingredients })

unfoldable pub create_ingredient : Store → CreateIngredientParams → Action Ingredient
create_ingredient s p = run s (insert_ingredient s.runtime p)

unfoldable pub get_ingredient : Store → Uuid → Action Ingredient
get_ingredient s id = run s (reading (λ t db. one (find (λ i. i.id == id) db.ingredients)))

-- The stored 0 is the float whose bits are all zero.
abbrev pub empty_item : Uuid → Uuid → Time → InventoryItem
empty_item id ingredient_id now = record {
  id = id;
  ingredient_id = ingredient_id;
  quantity = 0;
  cost_per_unit = none;
  updated_at = now;
}

-- An item that is there is returned as it is; a new one needs its ingredient.
unfoldable pub insert_item :
    Runtime → Uuid → ℕ → Tables → Option InventoryItem → Result (InventoryItem × Tables)
insert_item rt ingredient_id t db (some item) = ok (item, db)
insert_item rt ingredient_id t db none =
    let row = empty_item (rt.uuid t) ingredient_id (rt.now t) in
    if has_row (λ (x : InventoryItem). x.id == rt.uuid t) db.inventory_items
    then err (database unique_violation)
    else if not (has_row (λ (i : Ingredient). i.id == ingredient_id) db.ingredients)
    then err (database foreign_key_violation)
    else ok (row, record db { inventory_items = row ∷ db.inventory_items })

unfoldable pub upsert_item : Runtime → Uuid → Statement InventoryItem
unfolding insert_item
upsert_item rt ingredient_id t db =
    insert_item rt ingredient_id t db
      (find (λ x. x.ingredient_id == ingredient_id) db.inventory_items)

unfoldable pub ensure_inventory_item : Store → Uuid → Action InventoryItem
ensure_inventory_item s ingredient_id = run s (upsert_item s.runtime ingredient_id)

abbrev pub with_quantity : Float32 → Time → InventoryItem → InventoryItem
with_quantity quantity now x = record x { quantity = quantity; updated_at = now }

unfoldable pub set_inventory_quantity : Store → Uuid → Float32 → Action (Unit {0})
set_inventory_quantity s id quantity = run s λ t db. ok (
  tt,
  record db {
    inventory_items =
        update_where (λ x. x.id == id) (with_quantity quantity (s.runtime.now t))
          db.inventory_items;
  },
)

pub record ListInventoryRow : Type 0 where
  pub ingredient : Ingredient
  pub stock : Float32
  pub cost_per_unit : Option Float32

-- The left join of an ingredient with its item; no item counts as a stock of 0.
abbrev pub inventory_row : List InventoryItem → Ingredient → ListInventoryRow
inventory_row items i = elim (find (λ (x : InventoryItem). x.ingredient_id == i.id) items) [
  | none ↦ record { ingredient = i; stock = 0; cost_per_unit = none }
  | some x ↦ record { ingredient = i; stock = x.quantity; cost_per_unit = x.cost_per_unit }
]

-- The place of a value in its enum type, by which an enum column sorts.
unfoldable pub enum_index : List String → String → ℕ
enum_index [] v = 0
enum_index (c ∷ cs) v = if c == v then 0 else enum_index cs v + 1

-- `order by i.category, i.name`
unfoldable pub ingredient_lt : Runtime → Ingredient → Ingredient → Bool
unfolding enum_index
ingredient_lt rt a b =
    ltb (enum_index ingredient_categories a.category) (enum_index ingredient_categories b.category)
    || (a.category == b.category && rt.text_lt a.name b.name)

unfoldable pub list_inventory : Store → Action (List ListInventoryRow)
unfolding ingredient_lt
list_inventory s = run s (
    reading λ t db.
      ok
        (map (inventory_row db.inventory_items) (sort_by (ingredient_lt s.runtime) db.ingredients)))
