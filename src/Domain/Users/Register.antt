-- ===== src/Domain/Users/Register.antt =====
-- Users.Register of internal/domain/users.go: an invite makes one member, once.
use cellarkeep_server.Prelude.{
  ◌≤◌, String, true, false, none, some, List, [], ◌∷◌, has_row, find, nat_eq, string_eq, ◌≡◌, refl,
  arith, update_where, inl, inr, subst, sym,
}
use cellarkeep_server.Store.Model.{Uuid, Time, User, Invite, Tables}
use cellarkeep_server.Store.Action.{Runtime, Store, Action, World, Error, Result, ok, err, is_err}
use cellarkeep_server.Store.Triple.{
  Post, Triple, Anything, AllOrNothing, Triple-bind, Triple-pure, Triple-raise_if, Triple-given,
  Triple-Anything, Triple-from, Triple-atomic,
}
use cellarkeep_server.Store.Users.{clashes}
use cellarkeep_server.Store.Users.Laws.{IsInserted, create_user_lem}
use cellarkeep_server.Store.Invites.{is_valid, claimed}
use cellarkeep_server.Store.Invites.Laws.{IsUpdated, find_valid_invite_lem, claim_invite_lem}
use cellarkeep_server.Domain.Users.{
  norm_email, mapping_no_rows, on_no_rows, is_for_other, register_body, register, account_params,
}
use cellarkeep_server.Domain.Users.Setup.{IsHashOf, hash_password_lem}

-- A new member by an invite: the invite was valid, was meant for the address or for anybody, and is
-- claimed for the member; the address is new; nothing else changes.
pub record IsRegistered (rt : Runtime) (token address called password : String) (now : Time)
    (before : Tables) (u : User) (db : Tables) : Type 0 where
  pub invite : Invite
  pub found : find (is_valid token now) before.invites ≡ some invite
  pub addressed : is_for_other invite.email (norm_email rt address) ≡ false
  pub role : u.role ≡ "member"
  pub email : u.email ≡ norm_email rt address
  pub name : u.name ≡ called
  pub hashed : IsHashOf rt password u.password_hash
  pub fresh : has_row (clashes u.id u.email) before.users ≡ false
  pub tables : db ≡ record before {
    users = u ∷ before.users;
    invites = update_where (is_valid token now) (claimed now u.id) before.invites;
  }

-- Another name for an error does not change what was done.
module _ {A : Type 0} (Q : A → Tables → Type 0) (E : Tables → Type 0) (e : Error) where
  Post-on_no_rows : (p : Result A × World) → Post Q E p → Post Q E (on_no_rows e p.0, p.1)
  Post-on_no_rows (ok a, w) h = h
  Post-on_no_rows (err x, w) h = h

pub Triple-mapping_no_rows :
    {A : Type 0} {P : Tables → Type 0} {m : Action A} {Q : A → Tables → Type 0}
    {E : Tables → Type 0} (e : Error)
    → Triple P m Q E
    → Triple P (mapping_no_rows e m) Q E
Triple-mapping_no_rows {m = m} {Q = Q} {E = E} e t = record {
  at = λ w p. Post-on_no_rows Q E e (m w) (t.at w p);
}

module _ (s : Store) (token address called password : String) (now : Time) (before : Tables) where
  module _ (inv : Invite) (found : find (is_valid token now) before.invites ≡ some inv)
      (addressed : is_for_other inv.email (norm_email s.runtime address) ≡ false) (hash : String)
      (hashed : IsHashOf s.runtime password hash) where
    claimed-IsRegistered :
        (u : User) (mid : Tables)
        → IsInserted s.runtime (account_params s.runtime "member" address called hash) before u mid
        → (i : Invite) (db : Tables) → IsUpdated (is_valid token now) (claimed now u.id) mid i db
        → IsRegistered s.runtime token address called password now before u db
    claimed-IsRegistered u mid ins i db c = record {
      invite = inv;
      found = found;
      addressed = addressed;
      role = ground (arith, ins.row);
      email = ground (arith, ins.row);
      name = ground (arith, ins.row);
      hashed = (hashed.0, ground (arith, ins.row, hashed.1));
      fresh = ins.fresh;
      tables = ground (arith, ins.tables, c.tables);
    }

  register_body_lem :
      Triple
        (λ db. db ≡ before)
        (register_body s token address called password now)
        (IsRegistered s.runtime token address called password now before)
        Anything
  unfolding register_body
  register_body_lem =
      Triple-bind (λ inv db. (db ≡ before) × (find (is_valid token now) before.invites ≡ some inv))
        (Triple-mapping_no_rows _ (Triple-Anything (find_valid_invite_lem s token now before)))
        λ inv. Triple-given λ found.
          Triple-bind
            (λ _ db.
              (db ≡ before) × (is_for_other inv.email (norm_email s.runtime address) ≡ false))
            (Triple-raise_if _ _ (λ db no p. (p, no)) (λ db p. tt))
            λ _. Triple-given λ addressed.
              Triple-bind (λ hash db. (db ≡ before) × IsHashOf s.runtime password hash)
                (Triple-Anything (hash_password_lem s password before))
                λ hash. Triple-given λ hashed.
                  Triple-bind
                    (λ u db.
                      IsInserted s.runtime (account_params s.runtime "member" address called hash)
                        before u db)
                    (Triple-Anything (
                      create_user_lem s (account_params s.runtime "member" address called hash)
                        before))
                    λ u. Triple-from λ mid ins.
                      Triple-bind (IsUpdated (is_valid token now) (claimed now u.id) mid)
                        (Triple-Anything (claim_invite_lem s token now u.id mid))
                        λ i.
                          Triple-pure u
                            (claimed-IsRegistered inv found addressed hash hashed u mid ins i)

-- Whatever fails, Register outside a transaction makes one member by a valid invite, which it claims,
-- and changes nothing else, or it changes nothing; an error with the member made is a commit whose
-- acknowledgement was lost.
pub register_outcome :
    (s : Store) (token address called password : String) (now : Time) (w : World)
    → s.tx ≡ false
    → Post
        (IsRegistered s.runtime token address called password now w.tables)
        (AllOrNothing w.tables (IsRegistered s.runtime token address called password now w.tables))
        (register s token address called password now w)
unfolding register
register_outcome s token address called password now w no_tx =
    (Triple-atomic s (register_body s token address called password now) w.tables
        (IsRegistered s.runtime token address called password now w.tables) no_tx
        (register_body_lem s token address called password now w.tables)).at
      w refl

-- A claimed invite is not found again.
find-claimed :
    (token : String) (now later : Time) (id : Uuid) (xs : List Invite)
    → now ≤ later
    → find (is_valid token later) (update_where (is_valid token now) (claimed now id) xs) ≡ none
find-claimed token now later id [] le = refl
find-claimed token now later id (x ∷ xs) le = ground (arith, find-claimed token now later id xs le)

-- After a registration, the tables it leaves hold no invite for the token at that time or later.
pub IsRegistered-spent :
    (rt : Runtime) (token address called password : String) (now later : Time) (before : Tables)
    (u : User) (db : Tables)
    → IsRegistered rt token address called password now before u db
    → now ≤ later
    → find (is_valid token later) db.invites ≡ none
IsRegistered-spent rt token address called password now later before u db r le =
    subst (λ (x : Tables). find (is_valid token later) x.invites ≡ none) (sym r.tables)
      (find-claimed token now later u.id before.invites le)

abbrev pub Refused : {A : Type 0} → Tables → Result A × World → Type 0
Refused before p = (is_err p.0 ≡ true) × (p.1.tables ≡ before)

pub Refused-of_Post :
    {A : Type 0} (before : Tables) (R : A → Tables → Type 0) (p : Result A × World)
    → ((a : A) (db : Tables) → R a db → ⊥)
    → Post R (AllOrNothing before R) p
    → Refused before p
Refused-of_Post before R (ok a, w) never h = absurd (never a w.tables h)
Refused-of_Post before R (err e, w) never (inl same) = (refl, same)
Refused-of_Post before R (err e, w) never (inr (a, h)) = absurd (never a w.tables h)

-- No invite that is valid for the token: the registration fails and changes nothing.
pub register-Refused :
    (s : Store) (token address called password : String) (now : Time) (w : World)
    → s.tx ≡ false
    → find (is_valid token now) w.tables.invites ≡ none
    → Refused w.tables (register s token address called password now w)
register-Refused s token address called password now w no_tx spent =
    Refused-of_Post w.tables (IsRegistered s.runtime token address called password now w.tables)
      (register s token address called password now w) (λ a db r. cc (spent, r.found))
      (register_outcome s token address called password now w no_tx)

-- An invite is used once: after a successful registration by a token, every registration by it at that
-- time or later fails and changes nothing, as long as the invites are those that the first one left.
pub register_once :
    (s : Store) (token address called password : String) (now : Time) (w w' : World) (u : User)
    (address' called' password' : String) (later : Time) (v : World)
    → s.tx ≡ false
    → register s token address called password now w ≡ (ok u, w')
    → v.tables.invites ≡ w'.tables.invites
    → now ≤ later
    → Refused v.tables (register s token address' called' password' later v)
register_once s token address called password now w w' u address' called' password' later v no_tx
      done same le =
    let first : IsRegistered s.runtime token address called password now w.tables u w'.tables =
      subst
        (Post (IsRegistered s.runtime token address called password now w.tables) (
          AllOrNothing w.tables
            (IsRegistered s.runtime token address called password now w.tables)))
        done (register_outcome s token address called password now w no_tx) in
    let spent =
      IsRegistered-spent s.runtime token address called password now later w.tables u w'.tables
        first le in
    Refused-of_Post v.tables
      (IsRegistered s.runtime token address' called' password' later v.tables)
      (register s token address' called' password' later v) (λ a db r. cc (spent, r.found, same))
      (register_outcome s token address' called' password' later v no_tx)
