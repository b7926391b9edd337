-- ===== src/Store/Keeps/Parts.antt =====
-- Predicates on one table: only the queries that write that table matter.
use cellarkeep_server.Prelude.{ℕ, String, List, ◌≡◌, arith, subst, none, some, Option, nat_eq}
use cellarkeep_server.Store.Model.{Uuid, Time, User, Invite, InventoryItem, Tables}
use cellarkeep_server.Store.Action.{Runtime, Store, Statement, ok, run}
use cellarkeep_server.Store.Keeps.{Keeps, Keeps-run, Stable}
use cellarkeep_server.Store.Users.{
  CreateUserParams, insert_user, create_user, update_user_password, insert_session, create_session,
  touch_session, delete_session, delete_user_sessions,
}
use cellarkeep_server.Store.Invites.{
  CreateInviteParams, insert_invite, create_invite, update_invite, claim_invite, revoke_invite,
}
use cellarkeep_server.Store.Vessels.{
  insert_vessel, create_vessel, update_vessel, remove_vessel, delete_vessel,
}
use cellarkeep_server.Store.Inventory.{
  insert_ingredient, create_ingredient, insert_item, upsert_item, ensure_inventory_item,
  set_inventory_quantity,
}

insert_item-parts :
    (rt : Runtime) (id : Uuid) (t : ℕ) (db : Tables) (o : Option InventoryItem) (x : InventoryItem)
    (db' : Tables)
    → insert_item rt id t db o ≡ ok (x, db')
    → (db.users ≡ db'.users) × (db.invites ≡ db'.invites)
unfolding insert_item
insert_item-parts rt id t db none x db' e = (ground arith, ground arith)
insert_item-parts rt id t db (some y) x db' e = (ground arith, ground arith)

-- A predicate on the users.
module _ (s : Store) (Q : List User → Type 0) where
  same_users :
      {A : Type 0} (f : Statement A)
      → ((t : ℕ) (db : Tables) (a : A) (db' : Tables) → f t db ≡ ok (a, db') → db.users ≡ db'.users)
      → Keeps (λ db. Q db.users) (run s f)
  same_users f same = Keeps-run s f (λ t db a db' q e. subst Q (same t db a db' e) q)

  pub Stable-users :
      ((p : CreateUserParams) → Keeps (λ db. Q db.users) (create_user s p))
      → ((id : Uuid) (hash : String) → Keeps (λ db. Q db.users) (update_user_password s id hash))
      → Stable s (λ db. Q db.users)
  unfolding create_session insert_session touch_session delete_session delete_user_sessions
      create_invite insert_invite claim_invite revoke_invite update_invite create_vessel
      insert_vessel update_vessel delete_vessel remove_vessel create_ingredient insert_ingredient
      ensure_inventory_item upsert_item set_inventory_quantity
  Stable-users made set = record {
    user_made = made;
    password_set = set;
    session_made = λ id user expires. same_users _ (λ t db a db' e. ground arith);
    session_touched = λ id expires. same_users _ (λ t db a db' e. ground arith);
    session_dropped = λ id. same_users _ (λ t db a db' e. ground arith);
    sessions_dropped = λ user. same_users _ (λ t db a db' e. ground arith);
    invite_made = λ p. same_users _ (λ t db a db' e. ground arith);
    invite_claimed = λ token now user. same_users _ (λ t db a db' e. ground arith);
    invite_revoked = λ id now. same_users _ (λ t db a db' e. ground arith);
    vessel_made = λ p. same_users _ (λ t db a db' e. ground arith);
    vessel_changed = λ id p. same_users _ (λ t db a db' e. ground arith);
    vessel_deleted = λ id. same_users _ (λ t db a db' e. ground arith);
    ingredient_made = λ p. same_users _ (λ t db a db' e. ground arith);
    item_ensured =
        λ id. same_users _ (λ t db a db' e. (insert_item-parts s.runtime id t db _ a db' e).0);
    quantity_set = λ id q. same_users _ (λ t db a db' e. ground arith);
  }

-- A predicate on the invites.
module _ (s : Store) (Q : List Invite → Type 0) where
  same_invites :
      {A : Type 0} (f : Statement A)
      → ((t : ℕ) (db : Tables) (a : A) (db' : Tables)
          → f t db ≡ ok (a, db')
          → db.invites ≡ db'.invites)
      → Keeps (λ db. Q db.invites) (run s f)
  same_invites f same = Keeps-run s f (λ t db a db' q e. subst Q (same t db a db' e) q)

  pub Stable-invites :
      ((p : CreateInviteParams) → Keeps (λ db. Q db.invites) (create_invite s p))
      → ((token : String) (now : Time) (user : Uuid)
          → Keeps (λ db. Q db.invites) (claim_invite s token now user))
      → ((id : Uuid) (now : Time) → Keeps (λ db. Q db.invites) (revoke_invite s id now))
      → Stable s (λ db. Q db.invites)
  unfolding create_user insert_user update_user_password create_session insert_session touch_session
      delete_session delete_user_sessions create_vessel insert_vessel update_vessel delete_vessel
      remove_vessel create_ingredient insert_ingredient ensure_inventory_item upsert_item
      set_inventory_quantity
  Stable-invites made claimed revoked = record {
    user_made = λ p. same_invites _ (λ t db a db' e. ground arith);
    password_set = λ id hash. same_invites _ (λ t db a db' e. ground arith);
    session_made = λ id user expires. same_invites _ (λ t db a db' e. ground arith);
    session_touched = λ id expires. same_invites _ (λ t db a db' e. ground arith);
    session_dropped = λ id. same_invites _ (λ t db a db' e. ground arith);
    sessions_dropped = λ user. same_invites _ (λ t db a db' e. ground arith);
    invite_made = made;
    invite_claimed = claimed;
    invite_revoked = revoked;
    vessel_made = λ p. same_invites _ (λ t db a db' e. ground arith);
    vessel_changed = λ id p. same_invites _ (λ t db a db' e. ground arith);
    vessel_deleted = λ id. same_invites _ (λ t db a db' e. ground arith);
    ingredient_made = λ p. same_invites _ (λ t db a db' e. ground arith);
    item_ensured =
        λ id. same_invites _ (λ t db a db' e. (insert_item-parts s.runtime id t db _ a db' e).1);
    quantity_set = λ id q. same_invites _ (λ t db a db' e. ground arith);
  }
