-- ===== src/Store/Invites/Laws.antt =====
-- What the queries on invites do to the tables.
use cellarkeep_server.Prelude.{
  ℕ, String, Bool, true, false, ◌&&◌, ◌||◌, Option, none, some, ◌∷◌, has_row, find, ◌==◌, nat_eq,
  string_eq, ◌≡◌, subst, refl, arith, if◌then◌else◌, update_where,
}
use cellarkeep_server.Store.Model.{Uuid, Time, User, Invite, Tables}
use cellarkeep_server.Store.Action.{Error, Runtime, Store, Result, ok, err, one}
use cellarkeep_server.Store.Triple.{Triple, one-eq-ok, Triple-write, Triple-reading, AllOrNothing}
use cellarkeep_server.Store.Invites.{
  CreateInviteParams, new_invite, insert_invite, create_invite, is_open, is_valid,
  find_valid_invite, claimed, changed, update_invite, claim_invite, revoked, revoke_invite,
}

pub find_valid_invite_lem :
    (s : Store) (token : String) (now : Time) (before : Tables)
    → Triple
        (λ db. db ≡ before)
        (find_valid_invite s token now)
        (λ i db. (db ≡ before) × (find (is_valid token now) before.invites ≡ some i))
        (λ db. db ≡ before)
unfolding find_valid_invite
find_valid_invite_lem s token now before =
    Triple-reading s (λ t db. one (find (is_valid token now) db.invites))
      (λ t db i p h.
        (p, one-eq-ok _ i (subst (λ x. one (find (is_valid token now) x.invites) ≡ ok i) p h)))
      (λ db p. p)

-- An update of invites: a row that passed the test is returned as changed, and every such row is changed.
pub record IsUpdated (p : Invite → Bool) (f : Invite → Invite) (before : Tables) (i : Invite)
    (db : Tables) : Type 0 where
  pub old : Invite
  pub found : find p before.invites ≡ some old
  pub row : i ≡ f old
  pub tables : db ≡ record before { invites = update_where p f before.invites }

changed-IsUpdated :
    (p : Invite → Bool) (f : Invite → Invite) (before : Tables) (i : Invite) (db : Tables)
    (o : Option Invite)
    → find p before.invites ≡ o
    → changed p f before o ≡ ok (i, db)
    → IsUpdated p f before i db
changed-IsUpdated p f before i db none e h = cc
changed-IsUpdated p f before i db (some old) e h = record {
  old = old;
  found = e;
  row = ground arith;
  tables = ground arith;
}

update_invite-IsUpdated :
    (p : Invite → Bool) (f : Invite → Invite) (before : Tables) (i : Invite) (db : Tables)
    → update_invite p f before ≡ ok (i, db)
    → IsUpdated p f before i db
unfolding update_invite
update_invite-IsUpdated p f before i db h =
    changed-IsUpdated p f before i db (find p before.invites) refl h

unguard :
    {A : Type 0} (b : Bool) (e : Error) (r : Result A) (a : A)
    → (if b then err e else r) ≡ ok a
    → r ≡ ok a
unguard true e r a h = cc
unguard false e r a h = h

pub claim_invite_lem :
    (s : Store) (token : String) (now : Time) (used_by : Uuid) (before : Tables)
    → Triple
        (λ db. db ≡ before)
        (claim_invite s token now used_by)
        (IsUpdated (is_valid token now) (claimed now used_by) before)
        (AllOrNothing before (IsUpdated (is_valid token now) (claimed now used_by) before))
unfolding claim_invite
claim_invite_lem s token now used_by before =
    Triple-write s _ before _
      (λ t i db h. update_invite-IsUpdated _ _ before i db (unguard _ _ _ (i, db) h))

pub revoke_invite_lem :
    (s : Store) (id : Uuid) (now : Time) (before : Tables)
    → Triple
        (λ db. db ≡ before)
        (revoke_invite s id now)
        (IsUpdated (λ i. i.id == id && is_open i) (revoked now) before)
        (AllOrNothing before (IsUpdated (λ i. i.id == id && is_open i) (revoked now) before))
unfolding revoke_invite
revoke_invite_lem s id now before =
    Triple-write s _ before _ (λ t i db h. update_invite-IsUpdated _ _ before i db h)

-- What insert_invite adds: an open invite with a new id and token, by an existing user.
pub record IsInvited (rt : Runtime) (p : CreateInviteParams) (before : Tables) (i : Invite)
    (db : Tables) : Type 0 where
  pub tick : ℕ
  pub row : i ≡ new_invite (rt.uuid tick) p
  pub tables : db ≡ record before { invites = i ∷ before.invites }
  pub fresh : has_row (λ (x : Invite). x.id == i.id || x.token == i.token) before.invites ≡ false
  pub creator : has_row (λ (u : User). u.id == i.created_by) before.users ≡ true

insert_invite-IsInvited :
    (rt : Runtime) (p : CreateInviteParams) (t : ℕ) (db : Tables) (i : Invite) (db' : Tables)
    → insert_invite rt p t db ≡ ok (i, db')
    → IsInvited rt p db i db'
unfolding insert_invite
insert_invite-IsInvited rt p t db i db' h = record {
  tick = t;
  row = ground arith;
  tables = ground arith;
  fresh = ground arith;
  creator = ground arith;
}

pub create_invite_lem :
    (s : Store) (p : CreateInviteParams) (before : Tables)
    → Triple
        (λ db. db ≡ before)
        (create_invite s p)
        (IsInvited s.runtime p before)
        (AllOrNothing before (IsInvited s.runtime p before))
unfolding create_invite
create_invite_lem s p before =
    Triple-write s (insert_invite s.runtime p) before (IsInvited s.runtime p before)
      (λ t i db h. insert_invite-IsInvited s.runtime p t before i db h)
