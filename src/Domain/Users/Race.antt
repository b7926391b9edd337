-- ===== src/Domain/Users/Race.antt =====
-- internal/domain/users.go: calls of Register with one token that overlap in time, and revocations between
-- them. A transaction reads the committed row of the invite (FindValidInvite), inserts its account, updates
-- the row (ClaimInvite) and commits. The database runs at its default level, READ COMMITTED: a statement
-- sees what is committed; an update waits while another transaction holds the row, and then tests its
-- `where` clause on the row as committed. The unique index on the addresses of users can make InsertUser
-- wait or fail: the steps let it run there too, so they have more runs than the database, and Race/Progress
-- says when it really runs.
pub mod Phases
pub mod Invariant
pub mod Progress
pub mod Allowed
pub mod Atomic
use cellarkeep_server.Prelude.{
  set_at, ℕ, String, Bool, true, false, Option, none, some, ◌≡◌, ◌≢◌, ◌⊎◌, nat_eq, ◌==◌,
  if◌then◌else◌,
}
use cellarkeep_server.Store.Model.{Uuid, Time, Invite}
use cellarkeep_server.Store.Invites.{is_valid, is_open, claimed, revoked}
use cellarkeep_server.Domain.Users.{is_for_other}

-- A call of Register: its time, its normalised address, and the id that its account is given.
pub record Caller : Type 0 where
  pub now : Time
  pub email : String
  pub account : Uuid

-- How far a transaction is; `holding` has updated the row and not yet committed.
pub data Phase : Type 0 where
  started found inserted holding committed failed : Phase

-- The committed row of the invite, the transaction that holds it, and the phases.
pub record Race : Type 0 where
  pub row : Invite
  pub lock : Option ℕ
  pub phase : ℕ → Phase

-- The statements of register_body, each by one caller: the row, the lock and the phase before and after.
pub data Work (token : String) (c : Caller) (t : ℕ)
    : Invite → Option ℕ → Phase → Invite → Option ℕ → Phase → Type 0 where
  look :
      {row : Invite} {lock : Option ℕ}
      → is_valid token c.now row ≡ true
      → is_for_other row.email c.email ≡ false
      → Work token c t row lock started row lock found
  look_in_vain :
      {row : Invite} {lock : Option ℕ}
      → (is_valid token c.now row ≡ false) ⊎ (is_for_other row.email c.email ≡ true)
      → Work token c t row lock started row lock failed
  insert : {row : Invite} {lock : Option ℕ} → Work token c t row lock found row lock inserted
  claim :
      {row : Invite}
      → is_valid token c.now row ≡ true
      → Work token c t row none inserted row (some t) holding
  claim_in_vain :
      {row : Invite}
      → is_valid token c.now row ≡ false
      → Work token c t row none inserted row none failed
  commit :
      {row : Invite} {lock : Option ℕ}
      → Work token c t row lock holding (claimed c.now c.account row) none committed

-- A rollback, by any error of a statement or of the connection.
pub data Abort : Option ℕ → Phase → Option ℕ → Type 0 where
  abort_started : {lock : Option ℕ} → Abort lock started lock
  abort_found : {lock : Option ℕ} → Abort lock found lock
  abort_inserted : {lock : Option ℕ} → Abort lock inserted lock
  abort_holding : {lock : Option ℕ} → Abort lock holding none

pub data Step (token : String) (callers : ℕ → Caller) (s : Race) : Race → Type 0 where
  work :
      (t : ℕ) {row : Invite} {lock : Option ℕ} {p : Phase}
      → Work token (callers t) t s.row s.lock (s.phase t) row lock p
      → Step token callers s (record { row = row; lock = lock; phase = set_at s.phase t p })
  abort :
      (t : ℕ) {lock : Option ℕ}
      → Abort s.lock (s.phase t) lock
      → Step token callers s (record { row = s.row; lock = lock; phase = set_at s.phase t failed })
  -- RevokeInvite, which waits for the row too
  revoke :
      (now : Time)
      → s.lock ≡ none
      → is_open s.row ≡ true
      → Step token callers s (record s { row = revoked now s.row })

abbrev pub at_start : Invite → Race
at_start row = record { row = row; lock = none; phase = λ t. started }

pub data Reach (token : String) (callers : ℕ → Caller) (row : Invite) : Race → Type 0 where
  first : Reach token callers row (at_start row)
  later :
      {s s' : Race}
      → Reach token callers row s
      → Step token callers s s'
      → Reach token callers row s'
