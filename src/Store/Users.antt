-- ===== src/Store/Users.antt =====
-- internal/store/gen/users.sql.go: the queries on users, and the ones on sessions that
-- internal/store/gen/sessions.sql.go holds.
pub mod Laws
use cellarkeep_server.Prelude.{
  ℕ, String, List, ◌∷◌, map, length, Bool, find, has_row, update_where, delete_where, sort_by, none,
  some, nat_eq, string_eq, ◌==◌, ◌||◌, ◌&&◌, Option, not, ltb, if◌then◌else◌,
}
use cellarkeep_server.Store.Model.{Uuid, Time, User, Session, Tables, user_roles}
use cellarkeep_server.Store.Action.{
  Runtime, Store, Action, Statement, Result, ok, err, database, no_rows, unique_violation,
  foreign_key_violation, invalid_enum, run, reading, one,
}

pub record CreateUserParams : Type 0 where
  pub email : String
  pub name : String
  pub password_hash : String
  pub role : String

abbrev pub new_user : Runtime → CreateUserParams → ℕ → User
new_user rt p t = record {
  id = rt.uuid t;
  email = p.email;
  name = p.name;
  password_hash = p.password_hash;
  role = p.role;
  created_at = rt.now t;
}

-- The primary key and the unique address.
abbrev pub clashes : Uuid → String → User → Bool
clashes id email u = u.id == id || u.email == email

unfoldable pub insert_user : Runtime → CreateUserParams → Statement User
insert_user rt p t db =
    if not (has_row (λ r. r == p.role) user_roles)
    then err (database invalid_enum)
    else if has_row (clashes (rt.uuid t) p.email) db.users
    then err (database unique_violation)
    else ok (new_user rt p t, record db { users = new_user rt p t ∷ db.users })

unfoldable pub create_user : Store → CreateUserParams → Action User
create_user s p = run s (insert_user s.runtime p)

unfoldable pub count_users : Store → Action ℕ
count_users s = run s (reading (λ t db. ok (length db.users)))

unfoldable pub get_user : Store → Uuid → Action User
get_user s id = run s (reading (λ t db. one (find (λ u. u.id == id) db.users)))

unfoldable pub get_user_by_email : Store → String → Action User
get_user_by_email s email = run s (reading (λ t db. one (find (λ u. u.email == email) db.users)))

pub record ListUsersRow : Type 0 where
  pub id : Uuid
  pub email : String
  pub name : String
  pub role : String
  pub created_at : Time

abbrev pub list_users_row : User → ListUsersRow
list_users_row u = record {
  id = u.id;
  email = u.email;
  name = u.name;
  role = u.role;
  created_at = u.created_at;
}

unfoldable pub list_users : Store → Action (List ListUsersRow)
list_users s = run s (
    reading
      λ t db. ok (map list_users_row (sort_by (λ a b. ltb a.created_at b.created_at) db.users)))

-- pg_advisory_xact_lock: alone in the database it returns at once.
unfoldable pub lock_setup : Store → Action (Unit {0})
lock_setup s = run s (reading (λ t db. ok tt))

unfoldable pub update_user_password : Store → Uuid → String → Action (Unit {0})
update_user_password s id hash = run s λ t db. ok (
  tt,
  record db {
    users = update_where (λ u. u.id == id) (λ u. record u { password_hash = hash }) db.users;
  },
)

unfoldable pub insert_session : Runtime → String → Uuid → Time → Statement (Unit {0})
insert_session rt id user_id expires_at t db =
    let row : Session = record {
      id = id;
      user_id = user_id;
      expires_at = expires_at;
      created_at = rt.now t;
    } in
    if has_row (λ (x : Session). x.id == id) db.sessions
    then err (database unique_violation)
    else if not (has_row (λ (u : User). u.id == user_id) db.users)
    then err (database foreign_key_violation)
    else ok (tt, record db { sessions = row ∷ db.sessions })

unfoldable pub create_session : Store → String → Uuid → Time → Action (Unit {0})
create_session s id user_id expires_at = run s (insert_session s.runtime id user_id expires_at)

pub record GetSessionWithUserRow : Type 0 where
  pub id : String
  pub expires_at : Time
  pub user_id : Uuid
  pub role : String

abbrev pub session_row : Session → User → GetSessionWithUserRow
session_row x u = record { id = x.id; expires_at = x.expires_at; user_id = u.id; role = u.role }

abbrev pub joined : Session → Option User → Result GetSessionWithUserRow
joined x none = err no_rows
joined x (some u) = ok (session_row x u)

abbrev pub with_owner : List User → Option Session → Result GetSessionWithUserRow
with_owner users none = err no_rows
with_owner users (some x) = joined x (find (λ u. u.id == x.user_id) users)

-- The join of a live session with its user, at the database's now().
unfoldable pub select_session : String → Time → Tables → Result GetSessionWithUserRow
select_session id now db =
    with_owner db.users (find (λ x. x.id == id && ltb now x.expires_at) db.sessions)

unfoldable pub get_session_with_user : Store → String → Action GetSessionWithUserRow
get_session_with_user s id = run s (reading (λ t db. select_session id (s.runtime.now t) db))

unfoldable pub touch_session : Store → String → Time → Action (Unit {0})
touch_session s id expires_at = run s λ t db. ok (
  tt,
  record db {
    sessions =
        update_where (λ x. x.id == id) (λ x. record x { expires_at = expires_at }) db.sessions;
  },
)

unfoldable pub delete_session : Store → String → Action (Unit {0})
delete_session s id =
    run s λ t db. ok (tt, record db { sessions = delete_where (λ x. x.id == id) db.sessions })

unfoldable pub delete_user_sessions : Store → Uuid → Action (Unit {0})
delete_user_sessions s user_id =
    run s
      λ t db. ok (tt, record db { sessions = delete_where (λ x. x.user_id == user_id) db.sessions })
