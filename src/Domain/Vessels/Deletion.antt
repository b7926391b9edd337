-- ===== src/Domain/Vessels/Deletion.antt =====
-- Vessels.Delete of internal/domain/vessels.go.
use cellarkeep_server.Prelude.{
  suc, ℕ, false, ◌&&◌, has_row, count_where, delete_where, ◌==◌, nat_eq, ◌≡◌, refl, arith, ltb,
  if◌then◌else◌, inl, inr, Bool-cases,
}
use cellarkeep_server.Store.Model.{Uuid, Vessel, Tables}
use cellarkeep_server.Store.Action.{
  Store, World, ok, err, conflict, database, foreign_key_violation,
}
use cellarkeep_server.Store.Triple.{
  Post, Triple, AllOrNothing, Triple-reading, Triple-write, Triple-bind, Triple-raise_if,
  Triple-given,
}
use cellarkeep_server.Store.Healthy.{IsHealthy, run_healthy}
use cellarkeep_server.Store.Vessels.{
  holds_active, refers, remove_vessel, delete_vessel, count_active_batches_in_vessel,
}
use cellarkeep_server.Domain.Vessels.{delete}

-- The vessel is gone, held no active batch, and no row referred to it if it was there.
pub record IsDeleted (id : Uuid) (before db : Tables) : Type 0 where
  pub idle : count_where (holds_active id) before.batches ≡ 0
  pub unused : (has_row (λ (v : Vessel). v.id == id) before.vessels && refers id before) ≡ false
  pub tables :
      db ≡ record before { vessels = delete_where (λ (v : Vessel). v.id == id) before.vessels }

module _ (s : Store) (id : Uuid) (before : Tables) where
  abbrev Deleted : Unit {0} → Tables → Type 0
  Deleted _ db = IsDeleted id before db

  remove_vessel-IsDeleted :
      (t : ℕ) (db : Tables)
      → count_where (holds_active id) before.batches ≡ 0
      → remove_vessel id t before ≡ ok (tt, db)
      → IsDeleted id before db
  unfolding remove_vessel
  remove_vessel-IsDeleted t db idle h = record {
    idle = idle;
    unused = ground arith;
    tables = ground arith;
  }

  delete_lem : Triple (λ db. db ≡ before) (delete s id) Deleted (AllOrNothing before Deleted)
  unfolding delete count_active_batches_in_vessel delete_vessel
  delete_lem =
      Triple-bind (λ n db. (db ≡ before) × (n ≡ count_where (holds_active id) before.batches))
        (Triple-reading s (λ t db. ok (count_where (holds_active id) db.batches))
          (λ t db n p h. (p, ground arith)) (λ db p. inl p))
        λ n. Triple-given λ counted.
          Triple-bind (λ _ db. (db ≡ before) × (ltb 0 n ≡ false))
            (Triple-raise_if _ conflict (λ db t p. (p, t)) (λ db p. inl p))
            λ _. Triple-given λ idle.
              Triple-write s (remove_vessel id) before _
                (λ t _ db h. remove_vessel-IsDeleted t db (ground arith) h)

-- Delete removes the vessel and nothing else, when it holds no active batch and no batch or event
-- refers to it; otherwise, or on a failure, it changes nothing. An error with the vessel gone is a
-- statement whose acknowledgement was lost.
pub delete_outcome :
    (s : Store) (id : Uuid) (w : World)
    → Post
        (λ _ db. IsDeleted id w.tables db)
        (AllOrNothing {A = Unit {0}} w.tables (λ _ db. IsDeleted id w.tables db))
        (delete s id w)
delete_outcome s id w = (delete_lem s id w.tables).at w refl

delete_vessel_healthy :
    (s : Store) (id : Uuid) (v : World)
    → IsHealthy s
    → (delete_vessel s id v).0 ≡ (
        if has_row (λ (x : Vessel). x.id == id) v.tables.vessels && refers id v.tables
        then err (database foreign_key_violation)
        else ok tt)
unfolding delete_vessel remove_vessel
delete_vessel_healthy s id v h =
    rw (run_healthy s h)
      (elim (Bool-cases
        (has_row (λ (x : Vessel). x.id == id) v.tables.vessels && refers id v.tables)) [
          | inl used ↦ rw used refl
          | inr free ↦ rw free refl
        ])

-- With a database that answers, Delete is a conflict for a vessel that holds an active batch, a foreign
-- key error for one that only a finished batch or an event refers to, and succeeds for any other id.
pub delete_decides :
    (s : Store) (id : Uuid) (w : World)
    → IsHealthy s
    → (delete s id w).0 ≡ (
        if ltb 0 (count_where (holds_active id) w.tables.batches)
        then err conflict
        else if has_row (λ (v : Vessel). v.id == id) w.tables.vessels && refers id w.tables
        then err (database foreign_key_violation)
        else ok tt)
unfolding delete count_active_batches_in_vessel
delete_decides s id w h =
    simp (run_healthy s h)
      (elim (Bool-cases (ltb 0 (count_where (holds_active id) w.tables.batches))) [
        | inl held ↦ rw held refl
        | inr idle ↦
            rw idle (delete_vessel_healthy s id (record { tables = w.tables; tick = suc w.tick }) h)
      ])
