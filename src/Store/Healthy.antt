-- ===== src/Store/Healthy.antt =====
-- A database that answers every call, and a source of random bytes that never fails.
use cellarkeep_server.Prelude.{ℕ, true, some, List, ◌≡◌, ap, if◌then◌else◌}
use cellarkeep_server.Store.Action.{
  up, World, Store, Action, Statement, ok, after, settle, finish, run, with_tx, draw,
}

pub record IsHealthy (s : Store) : Type 0 where
  pub linked : (t : ℕ) → s.runtime.link t ≡ up
  pub bytes : ℕ → ℕ → List ℕ
  pub drawn : (t n : ℕ) → s.runtime.random t n ≡ some (bytes t n)

module _ {A : Type 0} (s : Store) (h : IsHealthy s) where
  pub run_healthy : (f : Statement A) (w : World) → run s f w ≡ settle true w (f w.tick w.tables)
  unfolding run
  run_healthy f w = rw h.linked

  pub with_tx_healthy :
      (fn : Action A) (w : World)
      → with_tx s fn w ≡ (if s.tx then fn w else finish up w.tables (fn (after w)))
  unfolding with_tx
  with_tx_healthy fn w =
      rw (h.linked w.tick)
        (ap (λ l. if s.tx then fn w else finish l w.tables (fn (after w))) (h.linked _))

module _ (s : Store) (h : IsHealthy s) where
  pub draw_healthy : (n : ℕ) (w : World) → draw s n w ≡ (ok (h.bytes w.tick n), after w)
  unfolding draw
  draw_healthy n w = rw (h.drawn w.tick n, draw)
