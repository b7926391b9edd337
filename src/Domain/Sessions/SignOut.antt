-- ===== src/Domain/Sessions/SignOut.antt =====
-- Users.ChangePassword of internal/domain/users.go: the new hash, and the end of every session of the
-- user.
use Prim.Native.String
use cellarkeep_server.Prelude.{
  ◌≤◌, String, true, false, not, ◌==◌, nat_eq, ◌≡◌, ◌≢◌, inl, inr, refl, find, some, arith, ltb,
  sym, ap, subst, ◌∙◌,
}
use cellarkeep_server.Store.Model.{Uuid, Time, User, Tables}
use cellarkeep_server.Store.Action.{Store, Runtime, World, ok, not_found, forbidden, ◌>>◌, with_tx}
use cellarkeep_server.Store.Triple.{
  Post, Triple, AllOrNothing, Triple-bind, Triple-raise_if, Triple-given, Triple-Anything,
  Triple-weaken, Triple-atomic, Triple-from, Post-ok,
}
use cellarkeep_server.Store.Users.{update_user_password, delete_user_sessions}
use cellarkeep_server.Store.Users.Laws.{
  with_password, without_sessions_of, get_user_lem, update_user_password_lem,
  delete_user_sessions_lem,
}
use cellarkeep_server.Http.{Principal}
use cellarkeep_server.Auth.Password.{password_matches}
use cellarkeep_server.Domain.Users.{change_password}
use cellarkeep_server.Domain.Users.Setup.{IsHashOf, hash_password_lem}
use cellarkeep_server.Domain.Sessions.{principal}
use cellarkeep_server.Domain.Sessions.Lookup.{
  Triple-mapping_errors, principal-IsPrincipalOf, IsSessionOf-ne_deleted,
}

-- The change: the user knew the current password, the next one is long enough, its hash is stored, and
-- the sessions of the user are gone.
pub record IsChanged (rt : Runtime) (id : Uuid) (current next : String) (before db : Tables)
    : Type 0 where
  pub user : User
  pub found : find (λ (x : User). x.id == id) before.users ≡ some user
  pub known : password_matches rt user.password_hash current ≡ true
  pub long : 10 ≤ String.len next
  pub hash : String
  pub hashed : IsHashOf rt next hash
  pub tables : db ≡ without_sessions_of (with_password before id hash) id

module _ (s : Store) (id : Uuid) (current next : String) (before : Tables)
    (no_tx : s.tx ≡ false) where
  abbrev Changed : Unit {0} → Tables → Type 0
  Changed _ db = IsChanged s.runtime id current next before db

  write_lem :
      (hash : String)
      → Triple
          (λ db. db ≡ before)
          (with_tx s (update_user_password s id hash >> delete_user_sessions s id))
          (λ _ db. db ≡ without_sessions_of (with_password before id hash) id)
          (AllOrNothing {A = Unit {0}} before
            (λ _ db. db ≡ without_sessions_of (with_password before id hash) id))
  write_lem hash = Triple-atomic s _ before _ no_tx (
      Triple-bind (λ _ db. db ≡ with_password before id hash)
        (Triple-Anything (update_user_password_lem s id hash before))
        (λ _. Triple-from λ mid e.
          Triple-weaken (delete_user_sessions_lem s id mid)
            (λ _ db f. f ∙ ap (λ x. without_sessions_of x id) e) (λ db _. tt)))

  change_password_lem :
      Triple
        (λ db. db ≡ before)
        (change_password s id current next)
        Changed
        (AllOrNothing before Changed)
  unfolding change_password
  change_password_lem =
      Triple-bind
        (λ user db. (db ≡ before) × (find (λ (x : User). x.id == id) before.users ≡ some user))
        (Triple-mapping_errors not_found
          (Triple-weaken (get_user_lem s id before) (λ u db p. p) (λ db p. inl p)))
        λ user. Triple-given λ found.
          Triple-bind
            (λ _ db.
              (db ≡ before) × (not (password_matches s.runtime user.password_hash current) ≡ false))
            (Triple-raise_if _ forbidden (λ db t p. (p, t)) (λ db p. inl p))
            λ _. Triple-given λ known.
              Triple-bind (λ _ db. (db ≡ before) × (ltb (String.len next) 10 ≡ false))
                (Triple-raise_if _ _ (λ db t p. (p, t)) (λ db p. inl p))
                λ _. Triple-given λ long.
                  Triple-bind (λ hash db. (db ≡ before) × IsHashOf s.runtime next hash)
                    (Triple-weaken (hash_password_lem s next before) (λ hash db p. p)
                      (λ db p. inl p))
                    λ hash. Triple-given λ hashed.
                      let done : (db : Tables)
                          → db ≡ without_sessions_of (with_password before id hash) id
                          → IsChanged s.runtime id current next before db =
                        λ db e. record {
                          user = user;
                          found = found;
                          known = ground arith;
                          long = ground arith;
                          hash = hash;
                          hashed = hashed;
                          tables = e;
                        } in
                      Triple-weaken (write_lem hash) (λ _ db e. done db e)
                        (λ db. elim [ inl same ↦ inl same | inr (u, e) ↦ inr (u, done db e) ])

-- Whatever fails, ChangePassword outside a transaction stores a hash of the next password and deletes
-- the sessions of the user, for a user who gave the current password and a next one of ten bytes or
-- more, and changes nothing else; or it changes nothing. An error with the change made is a commit
-- whose acknowledgement was lost.
pub change_password_outcome :
    (s : Store) (id : Uuid) (current next : String) (w : World)
    → s.tx ≡ false
    → Post
        (λ _ db. IsChanged s.runtime id current next w.tables db)
        (AllOrNothing {A = Unit {0}} w.tables
          (λ _ db. IsChanged s.runtime id current next w.tables db))
        (change_password s id current next w)
change_password_outcome s id current next w no_tx =
    (change_password_lem s id current next w.tables no_tx).at w refl

-- After a successful ChangePassword no session id resolves to the user, at any time, on the tables
-- that it left.
pub change_password_signs_out :
    (s : Store) (id : Uuid) (current next : String) (w v : World) (sid : String) (p : Principal)
    (expires : Time)
    → s.tx ≡ false
    → (change_password s id current next w).0 ≡ ok tt
    → v.tables ≡ (change_password s id current next w).1.tables
    → (principal s sid v).0 ≡ ok (p, expires)
    → p.user_id ≢ id
change_password_signs_out s id current next w v sid p expires no_tx done same found =
    let c =
      Post-ok (λ _ db. IsChanged s.runtime id current next w.tables db) _
        (change_password s id current next w) tt done
        (change_password_outcome s id current next w no_tx) in
    let i = principal-IsPrincipalOf s sid v p expires found in
    subst (λ (q : Principal). q.user_id ≢ id) (sym i.principal_eq)
      (IsSessionOf-ne_deleted sid (s.runtime.now v.tick) id v.tables i.row _
        (ap (λ (db : Tables). db.sessions) (same ∙ c.tables)) i.session)
