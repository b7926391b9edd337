-- ===== src/Domain/Users/SetupRace.antt =====
-- internal/domain/users.go: calls of Setup that overlap in time. Each is a transaction that waits for the
-- advisory lock (LockSetup), counts the committed users, inserts its account and commits; the lock is
-- released when the transaction ends. Nobody else makes users: a registration needs an invite by a user.
pub mod Phases
pub mod Serial
use cellarkeep_server.Prelude.{
  set_at, length, ℕ, Bool, true, false, Option, none, some, List, [], ◌∷◌, ltb, ◌≡◌,
}
use cellarkeep_server.Store.Model.{User}

-- How far a call is. From `serialised` to `created` it holds the lock.
pub data SetupPhase : Type 0 where
  waiting serialised counted created made refused : SetupPhase

-- The committed users, the holder of the lock, and the phases.
pub record SetupRace : Type 0 where
  pub users : List User
  pub lock : Option ℕ
  pub phase : ℕ → SetupPhase

-- The statements of setup_body by one caller: users, lock and phase before and after.
pub data SetupWork (account : User) (t : ℕ)
    : List User → Option ℕ → SetupPhase → List User → Option ℕ → SetupPhase → Type 0 where
  take_lock : {users : List User} → SetupWork account t users none waiting users (some t) serialised
  count_none :
      {users : List User} {lock : Option ℕ}
      → ltb 0 (length users) ≡ false
      → SetupWork account t users lock serialised users lock counted
  count_some :
      {users : List User} {lock : Option ℕ}
      → ltb 0 (length users) ≡ true
      → SetupWork account t users lock serialised users none refused
  create :
      {users : List User} {lock : Option ℕ}
      → SetupWork account t users lock counted users lock created
  finish :
      {users : List User} {lock : Option ℕ}
      → SetupWork account t users lock created (account ∷ users) none made

-- A rollback, by any error.
pub data SetupAbort : Option ℕ → SetupPhase → Option ℕ → Type 0 where
  abort_waiting : {lock : Option ℕ} → SetupAbort lock waiting lock
  abort_serialised : {lock : Option ℕ} → SetupAbort lock serialised none
  abort_counted : {lock : Option ℕ} → SetupAbort lock counted none
  abort_created : {lock : Option ℕ} → SetupAbort lock created none

pub data SetupStep (account : ℕ → User) (s : SetupRace) : SetupRace → Type 0 where
  work_setup :
      (t : ℕ) {users : List User} {lock : Option ℕ} {p : SetupPhase}
      → SetupWork (account t) t s.users s.lock (s.phase t) users lock p
      → SetupStep account s (record { users = users; lock = lock; phase = set_at s.phase t p })
  abort_setup :
      (t : ℕ) {lock : Option ℕ}
      → SetupAbort s.lock (s.phase t) lock
      → SetupStep account s
          (record { users = s.users; lock = lock; phase = set_at s.phase t refused })

abbrev pub empty_cellar : SetupRace
empty_cellar = record { users = []; lock = none; phase = λ t. waiting }

pub data SetupReach (account : ℕ → User) : SetupRace → Type 0 where
  fresh : SetupReach account empty_cellar
  next : {s s' : SetupRace} → SetupReach account s → SetupStep account s s' → SetupReach account s'
