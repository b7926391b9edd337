-- ===== src/Domain/Inventory/Deduction.antt =====
-- What DeductForAddition of internal/domain/inventory.go takes from the stock, on quantities of whole
-- thousandths, in which stock is kept.
use cellarkeep_server.Prelude.{
  ℕ, ◌-◌, ◌≤◌, ◌<◌, update_where, ltb, ◌==◌, nat_eq, ◌≡◌, if◌then◌else◌,
}
use cellarkeep_server.Store.Model.{Uuid, Float32, Float64, Tables}
use cellarkeep_server.Store.Action.{Floats, Runtime, Store}
use cellarkeep_server.Store.Inventory.{with_quantity}

abbrev pub smaller : ℕ → ℕ → ℕ
smaller n m = if ltb n m then n else m

-- The float64 and the float32 nearest to a number of thousandths.
abbrev pub double : Floats → ℕ → Float64
double fl n = fl.div (fl.of_ℕ n) (fl.of_ℕ 1000)

abbrev pub single : Floats → ℕ → Float32
single fl n = fl.narrow (double fl n)

-- The whole number nearest to a thousand times a float is n.
abbrev pub IsNear : Floats → ℕ → Float64 → Type 0
IsNear fl n x = fl.round (fl.mul x (fl.of_ℕ 1000)) ≡ fl.of_ℕ n

-- What the code relies on of floats below a bound: comparison with 0, minimum and subtraction, of floats and
-- of single floats widened, are those of the thousandths up to less than half a thousandth.
pub record CountsThousandths (fl : Floats) (bound : ℕ) : Type 0 where
  pub positive : (n : ℕ) → n < bound → fl.lt (fl.of_ℕ 0) (double fl n) ≡ ltb 0 n
  pub near_min :
      (n m : ℕ)
      → n < bound
      → m < bound
      → IsNear fl (smaller n m) (fl.min (fl.widen (single fl n)) (double fl m))
  pub near_difference :
      (m k : ℕ) → m < bound → k ≤ m → IsNear fl (m - k) (fl.sub (double fl m) (double fl k))
  pub near_rest :
      (n k : ℕ)
      → n < bound
      → k ≤ n
      → IsNear fl (n - k) (fl.sub (fl.widen (single fl n)) (double fl k))

-- The stock after k thousandths were taken from an item that had n, at a tick.
abbrev pub taken : Runtime → ℕ → Uuid → Float32 → Tables → Tables
taken rt t id quantity db = record db {
  inventory_items =
      update_where (λ x. x.id == id) (with_quantity quantity (rt.now t)) db.inventory_items;
}
