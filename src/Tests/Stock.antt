-- ===== src/Tests/Stock.antt =====
-- Witnesses for the vessels and the stock.
use cellarkeep_server.Prelude.{
  ◌+◌, ◌*◌, ◌/◌, leb, ◌-◌, ◌&&◌, has_row, count_where, nat_eq, ◌==◌, ◌≡◌, refl, arith, ltb,
  if◌then◌else◌,
}
use cellarkeep_server.Store.Model.{Vessel}
use cellarkeep_server.Store.Action.{
  Floats, Store, ok, err, conflict, database, foreign_key_violation,
}
use cellarkeep_server.Store.Vessels.{holds_active, refers}
use cellarkeep_server.Domain.Vessels.{delete}
use cellarkeep_server.Domain.Vessels.Deletion.{delete_decides}
use cellarkeep_server.Domain.Inventory.{adjust_stock}
use cellarkeep_server.Domain.Inventory.Stock.{KeepsSign, AllStocked, adjust_stock-AllStocked}
use cellarkeep_server.Tests.{whole, runtime1, store1, store1-IsHealthy, world1}

delete_decides_example : (delete store1 3 world1).0 ≡ (
    if ltb 0 (count_where (holds_active 3) world1.tables.batches)
    then err conflict
    else if has_row (λ (v : Vessel). v.id == 3) world1.tables.vessels && refers 3 world1.tables
    then err (database foreign_key_violation)
    else ok tt)
delete_decides_example = delete_decides store1 3 world1 store1-IsHealthy

whole-KeepsSign : KeepsSign whole
whole-KeepsSign = record {
  max_zero = λ x. ground arith;
  narrow_sign = λ x h. ground arith;
  zero_sign = refl;
}

adjust_stock-AllStocked_example : AllStocked whole (adjust_stock store1 4 3 world1).1.tables
adjust_stock-AllStocked_example =
    adjust_stock-AllStocked store1 4 3 world1 whole-KeepsSign refl (refl, tt)

-- Fixed numbers of thousandths in the place of floats.
abbrev fixed : Floats
fixed = record {
  add = λ a b. a + b;
  sub = λ a b. a - b;
  mul = λ a b. a * b / 1000;
  div = λ a b. a * 1000 / b;
  min = λ a b. if ltb a b then a else b;
  max = λ a b. if ltb a b then b else a;
  lt = ltb;
  le = leb;
  round = λ a. (a + 500) / 1000 * 1000;
  widen = λ a. a;
  narrow = λ a. a;
  of_ℕ = λ n. n * 1000;
}

abbrev fixed_store : Store
fixed_store = record store1 { runtime = record runtime1 { floats = fixed } }
