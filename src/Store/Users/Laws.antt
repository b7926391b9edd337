-- ===== src/Store/Users/Laws.antt =====
-- What the queries on users and sessions do to the tables.
use cellarkeep_server.Prelude.{
  ℕ, String, true, false, ◌&&◌, Option, none, some, ◌∷◌, length, has_row, find, ◌==◌, nat_eq,
  string_eq, ◌≡◌, subst, refl, arith, ltb, update_where, delete_where,
}
use cellarkeep_server.Store.Model.{Uuid, Time, User, Session, Tables, user_roles}
use cellarkeep_server.Store.Action.{Runtime, Store, ok, one}
use cellarkeep_server.Store.Triple.{Triple, Triple-reading, one-eq-ok, Triple-write, AllOrNothing}
use cellarkeep_server.Store.Users.{
  CreateUserParams, new_user, clashes, insert_user, create_user, count_users, lock_setup, get_user,
  get_user_by_email, update_user_password, delete_user_sessions, get_session_with_user,
  GetSessionWithUserRow, session_row, joined, with_owner, select_session,
}

pub record IsInserted (rt : Runtime) (p : CreateUserParams) (db : Tables) (u : User) (db' : Tables)
    : Type 0 where
  pub tick : ℕ
  pub row : u ≡ new_user rt p tick
  pub tables : db' ≡ record db { users = u ∷ db.users }
  pub fresh : has_row (clashes u.id u.email) db.users ≡ false
  pub role : has_row (λ r. r == u.role) user_roles ≡ true

insert_user-IsInserted :
    (rt : Runtime) (p : CreateUserParams) (t : ℕ) (db : Tables) (u : User) (db' : Tables)
    → insert_user rt p t db ≡ ok (u, db')
    → IsInserted rt p db u db'
unfolding insert_user
insert_user-IsInserted rt p t db u db' h = record {
  tick = t;
  row = ground arith;
  tables = ground arith;
  fresh = ground arith;
  role = ground arith;
}

-- A new user: the address and the id are new, and the role is one of the enum.
pub create_user_lem :
    (s : Store) (p : CreateUserParams) (before : Tables)
    → Triple
        (λ db. db ≡ before)
        (create_user s p)
        (λ u db. IsInserted s.runtime p before u db)
        (AllOrNothing before (IsInserted s.runtime p before))
unfolding create_user
create_user_lem s p before =
    Triple-write s (insert_user s.runtime p) before (IsInserted s.runtime p before)
      (λ t u db h. insert_user-IsInserted s.runtime p t before u db h)

pub count_users_lem :
    (s : Store) (before : Tables)
    → Triple
        (λ db. db ≡ before)
        (count_users s)
        (λ n db. (db ≡ before) × (n ≡ length before.users))
        (λ db. db ≡ before)
unfolding count_users
count_users_lem s before =
    Triple-reading s (λ t db. ok (length db.users)) (λ t db n p h. ground arith) (λ db p. p)

pub lock_setup_lem :
    (s : Store) (before : Tables)
    → Triple (λ db. db ≡ before) (lock_setup s) (λ _ db. db ≡ before) (λ db. db ≡ before)
unfolding lock_setup
lock_setup_lem s before = Triple-reading s (λ t db. ok tt) (λ t db _ p h. p) (λ db p. p)

pub get_user_lem :
    (s : Store) (id : Uuid) (before : Tables)
    → Triple
        (λ db. db ≡ before)
        (get_user s id)
        (λ u db. (db ≡ before) × (find (λ (x : User). x.id == id) before.users ≡ some u))
        (λ db. db ≡ before)
unfolding get_user
get_user_lem s id before =
    Triple-reading s (λ t db. one (find (λ u. u.id == id) db.users))
      (λ t db u p h. (
        p,
        one-eq-ok _ u
            (subst (λ (x : Tables). one (find (λ (u : User). u.id == id) x.users) ≡ ok u) p h),
      ))
      (λ db p. p)

abbrev pub with_password : Tables → Uuid → String → Tables
with_password db id hash = record db {
  users =
      update_where (λ (u : User). u.id == id) (λ (u : User). record u { password_hash = hash })
        db.users;
}

pub update_user_password_lem :
    (s : Store) (id : Uuid) (hash : String) (before : Tables)
    → Triple
        (λ db. db ≡ before)
        (update_user_password s id hash)
        (λ _ db. db ≡ with_password before id hash)
        (AllOrNothing {A = Unit {0}} before (λ _ db. db ≡ with_password before id hash))
unfolding update_user_password
update_user_password_lem s id hash before = Triple-write s _ before _ (λ t a db h. ground arith)

abbrev pub without_sessions_of : Tables → Uuid → Tables
without_sessions_of db id = record db {
  sessions = delete_where (λ (x : Session). x.user_id == id) db.sessions;
}

pub delete_user_sessions_lem :
    (s : Store) (id : Uuid) (before : Tables)
    → Triple
        (λ db. db ≡ before)
        (delete_user_sessions s id)
        (λ _ db. db ≡ without_sessions_of before id)
        (AllOrNothing {A = Unit {0}} before (λ _ db. db ≡ without_sessions_of before id))
unfolding delete_user_sessions
delete_user_sessions_lem s id before = Triple-write s _ before _ (λ t a db h. ground arith)

pub get_session_with_user_lem :
    (s : Store) (id : String) (before : Tables)
    → Triple
        (λ db. db ≡ before)
        (get_session_with_user s id)
        (λ row db. (db ≡ before) × ((now : Time) × (select_session id now before ≡ ok row)))
        (λ db. db ≡ before)
unfolding get_session_with_user
get_session_with_user_lem s id before =
    Triple-reading s (λ t db. select_session id (s.runtime.now t) db)
      (λ t db row p h.
        (p, (s.runtime.now t, subst (λ x. select_session id (s.runtime.now t) x ≡ ok row) p h)))
      (λ db p. p)

-- The row of a session that is found names a user, and belongs to a live session of that user.
pub record IsSessionOf (id : String) (now : Time) (db : Tables) (row : GetSessionWithUserRow)
    : Type 0 where
  pub session : Session
  pub found : find (λ (x : Session). x.id == id && ltb now x.expires_at) db.sessions ≡ some session
  pub owner : User
  pub owned : find (λ (u : User). u.id == session.user_id) db.users ≡ some owner
  pub row_eq : row ≡ session_row session owner

pub select_session-IsSessionOf :
    (id : String) (now : Time) (db : Tables) (row : GetSessionWithUserRow)
    → select_session id now db ≡ ok row
    → IsSessionOf id now db row
unfolding select_session
select_session-IsSessionOf id now db row h = split _ refl h
  where
    split_user :
        (x : Session) (o : Option User)
        → find (λ (y : Session). y.id == id && ltb now y.expires_at) db.sessions ≡ some x
        → find (λ (u : User). u.id == x.user_id) db.users ≡ o
        → joined x o ≡ ok row
        → IsSessionOf id now db row
    split_user x none e f h' = cc
    split_user x (some u) e f h' = record {
      session = x;
      found = e;
      owner = u;
      owned = f;
      row_eq = ground arith;
    }

    split :
        (o : Option Session)
        → find (λ (y : Session). y.id == id && ltb now y.expires_at) db.sessions ≡ o
        → with_owner db.users o ≡ ok row
        → IsSessionOf id now db row
    split none e h' = cc
    split (some x) e h' = split_user x _ e refl h'

pub get_user_by_email_lem :
    (s : Store) (email : String) (before : Tables)
    → Triple
        (λ db. db ≡ before)
        (get_user_by_email s email)
        (λ u db. (db ≡ before) × (find (λ (x : User). x.email == email) before.users ≡ some u))
        (λ db. db ≡ before)
unfolding get_user_by_email
get_user_by_email_lem s email before =
    Triple-reading s (λ t db. one (find (λ u. u.email == email) db.users))
      (λ t db u p h. (
        p,
        one-eq-ok _ u (
            subst (λ (x : Tables). one (find (λ (u : User). u.email == email) x.users) ≡ ok u) p h),
      ))
      (λ db p. p)
