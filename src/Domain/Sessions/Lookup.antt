-- ===== src/Domain/Sessions/Lookup.antt =====
-- Sessions.Principal of internal/domain/users.go: whom a session id stands for.
use cellarkeep_server.Prelude.{
  String, Bool, true, false, ◌&&◌, some, List, [], ◌∷◌, find, find-passes, delete_where, ◌==◌,
  nat_eq, string_eq, ◌≡◌, ◌≢◌, refl, arith, ltb, subst,
}
use cellarkeep_server.Store.Model.{Uuid, Time, User, Session, Tables}
use cellarkeep_server.Store.Action.{
  Store, Action, World, Result, ok, err, Error, forbidden, Link, up, down, lost, send, settle,
  resume, run,
}
use cellarkeep_server.Store.Triple.{Post, Triple, reading-eq-ok}
use cellarkeep_server.Store.Users.{GetSessionWithUserRow, select_session, get_session_with_user}
use cellarkeep_server.Store.Users.Laws.{IsSessionOf, select_session-IsSessionOf}
use cellarkeep_server.Http.{Principal}
use cellarkeep_server.Domain.Users.{mapping_errors}
use cellarkeep_server.Domain.Sessions.{user_principal, renew, principal}

-- At a time that is before its expiry, the session of an id is in the table, and the principal is its
-- owner, with the role that the user has in the table.
pub record IsPrincipalOf (id : String) (now : Time) (before : Tables) (p : Principal)
    (expires : Time) : Type 0 where
  pub row : GetSessionWithUserRow
  pub session : IsSessionOf id now before row
  pub live : ltb now expires ≡ true
  pub principal_eq : p ≡ user_principal row
  pub expires_eq : expires ≡ row.expires_at

module _ {A : Type 0} (Q : A → Tables → Type 0) (E : Tables → Type 0) (e : Error) where
  Post-mapping_errors :
      (p : Result A × World)
      → Post Q E p
      → Post Q E (elim p.0 as (λ _. Result A × World) [ ok a ↦ (ok a, p.1) | err _ ↦ (err e, p.1) ])
  Post-mapping_errors (ok a, w) h = h
  Post-mapping_errors (err x, w) h = h

pub Triple-mapping_errors :
    {A : Type 0} {P : Tables → Type 0} {m : Action A} {Q : A → Tables → Type 0}
    {E : Tables → Type 0} (e : Error)
    → Triple P m Q E
    → Triple P (mapping_errors e m) Q E
Triple-mapping_errors {m = m} {Q = Q} {E = E} e t = record {
  at = λ w p. Post-mapping_errors Q E e (m w) (t.at w p);
}

settle-heard :
    {A : Type 0} (b : Bool) (w : World) (r : Result (A × Tables)) (a : A)
    → (settle b w r).0 ≡ ok a
    → (db : Tables) × (r ≡ ok (a, db))
settle-heard true w (ok (x, db)) a h = (db, ground arith)
settle-heard false w (ok (x, db)) a h = cc
settle-heard true w (err e) a h = cc
settle-heard false w (err e) a h = cc

send-heard :
    {A : Type 0} (l : Link) (w : World) (r : Result (A × Tables)) (a : A)
    → (send l w r).0 ≡ ok a
    → (db : Tables) × (r ≡ ok (a, db))
send-heard up w r a h = settle-heard true w r a h
send-heard lost w r a h = settle-heard false w r a h
send-heard down w r a h = cc

-- A session that is found was found at the time of the query.
get_session_with_user-select_session :
    (s : Store) (id : String) (w : World) (row : GetSessionWithUserRow)
    → (get_session_with_user s id w).0 ≡ ok row
    → select_session id (s.runtime.now w.tick) w.tables ≡ ok row
unfolding get_session_with_user run
get_session_with_user-select_session s id w row h =
    let (db, e) = send-heard (s.runtime.link w.tick) w _ row h in
    (reading-eq-ok (select_session id (s.runtime.now w.tick) w.tables) w.tables e).0

resume-ok :
    {A B : Type 0} (f : A → Action B) (p : Result A × World) (b : B)
    → (resume f p).0 ≡ ok b
    → (a : A) × (p.0 ≡ ok a) × ((f a p.1).0 ≡ ok b)
resume-ok f (ok a, w) b h = (a, refl, h)
resume-ok f (err e, w) b h = cc

mapped-ok :
    {A : Type 0} (e : Error) (p : Result A × World) (a : A)
    → (elim p.0 as (λ _. Result A × World) [ ok x ↦ (ok x, p.1) | err _ ↦ (err e, p.1) ]).0 ≡ ok a
    → p.0 ≡ ok a
mapped-ok e (ok x, w) a h = h
mapped-ok e (err x, w) a h = cc

mapping_errors-ok :
    {A : Type 0} (e : Error) (m : Action A) (w : World) (a : A)
    → (mapping_errors e m w).0 ≡ ok a
    → (m w).0 ≡ ok a
mapping_errors-ok e m w a h = mapped-ok e (m w) a h

-- The row that the principal is made of.
principal-row :
    (s : Store) (id : String) (w : World) (p : Principal) (expires : Time)
    → (principal s id w).0 ≡ ok (p, expires)
    → (row : GetSessionWithUserRow) × (select_session id (s.runtime.now w.tick) w.tables ≡ ok row)
      × (p ≡ user_principal row)
      × (expires ≡ row.expires_at)
unfolding principal
principal-row s id w p expires h =
    let (row, found, rest) =
      resume-ok _ (mapping_errors forbidden (get_session_with_user s id) w) (p, expires) h in
    let (_, _, made) = resume-ok _ (renew s id row _) (p, expires) rest in
    (
      row,
      get_session_with_user-select_session s id w row
          (mapping_errors-ok forbidden (get_session_with_user s id) w row found),
      ground arith,
      ground arith,
    )

-- A session id that resolves is that of a session in the table which expires after the clock's time at the
-- query, and the principal is the owner of it, as the users table has it, with that expiry.
pub principal-IsPrincipalOf :
    (s : Store) (id : String) (w : World) (p : Principal) (expires : Time)
    → (principal s id w).0 ≡ ok (p, expires)
    → IsPrincipalOf id (s.runtime.now w.tick) w.tables p expires
principal-IsPrincipalOf s id w p expires h =
    let (row, found, made, until) = principal-row s id w p expires h in
    let session = select_session-IsSessionOf id (s.runtime.now w.tick) w.tables row found in
    record {
      row = row;
      session = session;
      live = ground (
        arith,
        find-passes (λ (x : Session). x.id == id && ltb (s.runtime.now w.tick) x.expires_at)
            w.tables.sessions session.session session.found,
        session.row_eq,
        until,
      );
      principal_eq = made;
      expires_eq = until;
    }

find-delete_where :
    {A : Type 0} (p q : A → Bool) (xs : List A) (a : A)
    → find p (delete_where q xs) ≡ some a
    → q a ≡ false
find-delete_where p q [] a h = cc
find-delete_where p q (x ∷ xs) a h = ground (arith, find-delete_where p q xs a)

find-id :
    (id : Uuid) (xs : List User) (u : User)
    → find (λ (x : User). x.id == id) xs ≡ some u
    → u.id ≡ id
find-id id [] u h = cc
find-id id (x ∷ xs) u h = ground (arith, find-id id xs u)

-- No session of a user resolves to that user once the sessions of the user are deleted.
pub IsSessionOf-ne_deleted :
    (id : String) (now : Time) (owner : Uuid) (db : Tables) (row : GetSessionWithUserRow)
    (xs : List Session)
    → db.sessions ≡ delete_where (λ (x : Session). x.user_id == owner) xs
    → IsSessionOf id now db row
    → row.user_id ≢ owner
IsSessionOf-ne_deleted id now owner db row xs gone i same =
    let kept : i.session.user_id ≢ owner = ground (
      arith,
      find-delete_where _ (λ (x : Session). x.user_id == owner) xs i.session
          (subst
            (λ ys. find (λ (x : Session). x.id == id && ltb now x.expires_at) ys ≡ some i.session)
            gone i.found),
    ) in
    kept (ground (arith, find-id i.session.user_id db.users i.owner i.owned, i.row_eq))
