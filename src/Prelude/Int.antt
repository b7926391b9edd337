-- ===== src/Prelude/Int.antt =====
-- Signed machine integers, which are compared, passed on and, as numbers of days, added.
use cellarkeep_server.Prelude.Tests.{ltb}
use Prim.Native.Nat.{ℕ, zero, suc, ◌+◌}
use mathlib.Core.Bool.{Bool, true, false}

-- `negsuc n` is -(n + 1).
pub data ℤ : Type 0 where
  pos : ℕ → ℤ
  negsuc : ℕ → ℤ

abbrev pub ltz : ℤ → ℤ → Bool
ltz (pos a) (pos b) = ltb a b
ltz (pos a) (negsuc b) = false
ltz (negsuc a) (pos b) = true
ltz (negsuc a) (negsuc b) = ltb b a

-- a - b
abbrev pub difference : ℕ → ℕ → ℤ
difference a zero = pos a
difference zero (suc b) = negsuc b
difference (suc a) (suc b) = difference a b

infixl 60 ◌+ℤ◌
abbrev pub ◌+ℤ◌ : ℤ → ℤ → ℤ
pos a +ℤ pos b = pos (a + b)
pos a +ℤ negsuc b = difference a (suc b)
negsuc a +ℤ pos b = difference b (suc a)
negsuc a +ℤ negsuc b = negsuc (suc (a + b))
