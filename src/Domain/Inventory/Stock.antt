-- ===== src/Domain/Inventory/Stock.antt =====
-- What AdjustStock of internal/domain/inventory.go does to the stock.
use cellarkeep_server.Prelude.{
  ℕ, false, Option, none, some, ◌∷◌, update_where, All, All-update_where, ◌==◌, nat_eq, ◌≡◌, arith,
  sym, subst,
}
use cellarkeep_server.Store.Model.{Uuid, Float32, Float64, InventoryItem, Tables}
use cellarkeep_server.Store.Action.{Floats, Store, World, ok, with_tx}
use cellarkeep_server.Store.Triple.{
  Triple, Anything, Triple-run, Triple-bind, Triple-pure, Triple-with_tx, Post-invariant,
}
use cellarkeep_server.Store.Inventory.{
  upsert_item, insert_item, ensure_inventory_item, set_inventory_quantity, with_quantity,
  empty_item,
}
use cellarkeep_server.Domain.Inventory.{round3, next_level, adjust_body, adjust_stock}

-- What the code relies on of math.Max, of the conversion to float32 and of the zero value.
pub record KeepsSign (fl : Floats) : Type 0 where
  pub max_zero : (x : Float64) → fl.lt (fl.max (fl.of_ℕ 0) x) (fl.of_ℕ 0) ≡ false
  pub narrow_sign :
      (x : Float64)
      → fl.lt x (fl.of_ℕ 0) ≡ false
      → fl.lt (fl.widen (fl.narrow x)) (fl.of_ℕ 0) ≡ false
  pub zero_sign : fl.lt (fl.widen 0) (fl.of_ℕ 0) ≡ false

abbrev pub IsStocked : Floats → InventoryItem → Type 0
IsStocked fl x = fl.lt (fl.widen x.quantity) (fl.of_ℕ 0) ≡ false

-- No item has a stock below zero.
abbrev pub AllStocked : Floats → Tables → Type 0
AllStocked fl db = All (IsStocked fl) db.inventory_items

module _ (s : Store) (k : KeepsSign s.runtime.floats) where
  insert_item-AllStocked :
      (ingredient_id : Uuid) (t : ℕ) (db : Tables) (o : Option InventoryItem) (x : InventoryItem)
      (db' : Tables)
      → AllStocked s.runtime.floats db
      → insert_item s.runtime ingredient_id t db o ≡ ok (x, db')
      → AllStocked s.runtime.floats db'
  unfolding insert_item
  insert_item-AllStocked ingredient_id t db (some y) x db' h e =
      let same : db ≡ db' = ground arith in subst (AllStocked s.runtime.floats) same h
  insert_item-AllStocked ingredient_id t db none x db' h e =
      let items : db'.inventory_items
          ≡ empty_item (s.runtime.uuid t) ingredient_id (s.runtime.now t) ∷ db.inventory_items =
        ground arith in
      subst (All (IsStocked s.runtime.floats)) (sym items) (k.zero_sign, h)

  with_quantity-AllStocked :
      (id : Uuid) (t : ℕ) (db : Tables) (delta : Float64) (old : Float32)
      → AllStocked s.runtime.floats db
      → All (IsStocked s.runtime.floats) (
          update_where
            (λ (x : InventoryItem). x.id == id)
            (with_quantity
              (s.runtime.floats.narrow (next_level s.runtime.floats old delta))
              (s.runtime.now t))
            db.inventory_items)
  unfolding next_level
  with_quantity-AllStocked id t db delta old h =
      let fl = s.runtime.floats in
      let next = next_level fl old delta in
      All-update_where (IsStocked fl) (λ (x : InventoryItem). x.id == id)
        (with_quantity (fl.narrow next) (s.runtime.now t)) db.inventory_items
        (λ x _. k.narrow_sign next (k.max_zero (round3 fl (fl.add (fl.widen old) delta)))) h

  adjust_body-AllStocked :
      (ingredient_id : Uuid) (delta : Float64)
      → Triple
          (AllStocked s.runtime.floats)
          (adjust_body s ingredient_id delta)
          (λ _. AllStocked s.runtime.floats)
          Anything
  unfolding adjust_body set_inventory_quantity ensure_inventory_item upsert_item
  adjust_body-AllStocked ingredient_id delta =
      Triple-bind (λ _. AllStocked s.runtime.floats)
        (Triple-run s (upsert_item s.runtime ingredient_id)
          (λ t db x db' h e. (insert_item-AllStocked ingredient_id t db _ x db' h e, tt))
          (λ db h. tt))
        λ item.
          Triple-bind (λ _. AllStocked s.runtime.floats)
            (Triple-run s _
              (λ t db _ db' h e. (
                subst (All (IsStocked s.runtime.floats)) (ground arith)
                    (with_quantity-AllStocked item.id t db delta item.quantity h),
                tt,
              ))
              (λ db h. tt))
            λ _. Triple-pure _ (λ db h. h)

-- AdjustStock outside a transaction keeps every stock from falling below zero, on every outcome.
pub adjust_stock-AllStocked :
    (s : Store) (ingredient_id : Uuid) (delta : Float64) (w : World)
    → KeepsSign s.runtime.floats
    → s.tx ≡ false
    → AllStocked s.runtime.floats w.tables
    → AllStocked s.runtime.floats (adjust_stock s ingredient_id delta w).1.tables
unfolding adjust_stock
adjust_stock-AllStocked s ingredient_id delta w k no_tx h =
    Post-invariant (AllStocked s.runtime.floats) (with_tx s (adjust_body s ingredient_id delta) w) (
      (Triple-with_tx s (adjust_body s ingredient_id delta) no_tx
          (adjust_body-AllStocked s k ingredient_id delta) (λ _ db i. i) (λ db i. i)).at
        w h)
