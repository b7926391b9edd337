-- ===== src/Prelude/Family.antt =====
-- A value for each of the transactions that overlap, set at one of them.
use Prim.Native.Nat.{ℕ}
use mathlib.Core.Path.{sym, subst}
use mathlib.Core.Logic.{◌≢◌, inl, inr}
use cellarkeep_server.Prelude.Tests.{if◌then◌else◌, nat_eq, ◌==◌, Bool-cases}

module _ {A : Type 0} where
  abbrev pub set_at : (ℕ → A) → ℕ → A → ℕ → A
  set_at f t p u = if u == t then p else f u

  -- A property of every value after one has been set.
  pub set_at-all :
      (f : ℕ → A) (t : ℕ) (p : A) (Q : ℕ → A → Type 0)
      → Q t p
      → ((u : ℕ) → u ≢ t → Q u (f u))
      → (u : ℕ) → Q u (set_at f t p u)
  set_at-all f t p Q here there u = elim (Bool-cases (u == t)) [
    | inl same ↦ rw same (subst (λ v. Q v p) (sym ((nat_eq.same_iff u t).0 same)) here)
    | inr apart ↦ rw apart (there u (λ e. let same = (nat_eq.same_iff u t).1 e in cc))
  ]
