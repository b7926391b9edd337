-- ===== src/Domain/Keeps.antt =====
-- The operations of internal/domain keep what every query of the store keeps.
use cellarkeep_server.Prelude.{String, Option, find, string_eq, ◌==◌}
use cellarkeep_server.Store.Model.{Uuid, Time, Float64, Tables}
use cellarkeep_server.Store.Action.{Error, Result, ok, err, World, Store, Action, one}
use cellarkeep_server.Store.Keeps.{Keeps, Stable, keeps_rules, Keeps-reading}
use cellarkeep_server.Store.Users.{
  count_users, lock_setup, get_user, get_user_by_email, get_session_with_user, touch_session,
}
use cellarkeep_server.Store.Invites.{find_valid_invite}
use cellarkeep_server.Auth.Password.{hash_password}
use cellarkeep_server.Store.Vessels.{VesselParams, count_active_batches_in_vessel}
use cellarkeep_server.Domain.Sessions
use cellarkeep_server.Domain.Sessions.{new_session_id, renew, principal, create_invite_link, revoke}
use cellarkeep_server.Domain.Vessels
use cellarkeep_server.Domain.Inventory.{adjust_body, adjust_stock, deduct_for_addition}
use cellarkeep_server.Domain.Users.{
  norm_email, setup_body, setup, login, register_body, register, change_password, mapping_no_rows,
  mapping_errors,
}

module _ {A : Type 0} {P : Tables → Type 0} where
  pub Keeps-mapping_no_rows : (e : Error) (m : Action A) → Keeps P m → Keeps P (mapping_no_rows e m)
  Keeps-mapping_no_rows e m k = record { at = λ w h. k.at w h }

  pub Keeps-mapping_errors : (e : Error) (m : Action A) → Keeps P m → Keeps P (mapping_errors e m)
  Keeps-mapping_errors e m k = record { at = λ w h. renamed (m w) (k.at w h) }
    where
      renamed :
          (p : Result A × World)
          → P p.1.tables
          → P
              (elim p.0 as (λ _. Result A × World) [
                | ok a ↦ (ok a, p.1)
                | err _ ↦ (err e, p.1)
              ]).1.tables
      renamed (ok a, w) h = h
      renamed (err x, w) h = h

pub ruleset rename_rules = (Keeps-mapping_no_rows, Keeps-mapping_errors)

-- Only the sliding renewal writes.
pub Keeps-principal :
    (s : Store) (P : Tables → Type 0)
    → ((id : String) (expires : Time) → Keeps P (touch_session s id expires))
    → (id : String) → Keeps P (principal s id)
unfolding principal renew get_session_with_user
Keeps-principal s P touched id = search (keeps_rules, rename_rules, touched) depth 20

module _ (s : Store) (P : Tables → Type 0) (k : Stable s P) where
  open k use {
    user_made, password_set, session_made, session_dropped, sessions_dropped, invite_made,
    invite_claimed, invite_revoked, vessel_made, vessel_changed, vessel_deleted, ingredient_made,
    item_ensured, quantity_set,
  }

  Keeps-hash_password : (password : String) → Keeps P (hash_password s password)
  unfolding hash_password
  Keeps-hash_password password = search keeps_rules

  pub Keeps-setup : (email name password : String) → Keeps P (setup s email name password)
  unfolding setup setup_body lock_setup count_users
  Keeps-setup email name password = search (keeps_rules, Keeps-hash_password, user_made) depth 20

  pub Keeps-login :
      (decoy_hash email password : String) → Keeps P (login s decoy_hash email password)
  unfolding login get_user_by_email
  Keeps-login decoy_hash email password = record {
    at = λ w h.
        (Keeps-reading {P = P} s
            (λ t db. one (find (λ u. u.email == norm_email s.runtime email) db.users))).at
          w h;
  }

  pub Keeps-register :
      (token email name password : String) (now : Time)
      → Keeps P (register s token email name password now)
  unfolding register register_body find_valid_invite
  Keeps-register token email name password now =
      search (keeps_rules, rename_rules, Keeps-hash_password, user_made, invite_claimed) depth 20

  pub Keeps-change_password :
      (id : Uuid) (current next : String) → Keeps P (change_password s id current next)
  unfolding change_password get_user
  Keeps-change_password id current next =
      search (keeps_rules, rename_rules, Keeps-hash_password, password_set, sessions_dropped) depth
        20

  pub Keeps-create_session : (id : Uuid) (now : Time) → Keeps P (Sessions.create s id now)
  unfolding Sessions.create new_session_id
  Keeps-create_session id now = search (keeps_rules, session_made) depth 20

  pub Keeps-delete_session : (id : String) → Keeps P (Sessions.delete s id)
  unfolding Sessions.delete
  Keeps-delete_session id = session_dropped id

  pub Keeps-create_invite_link :
      (by : Uuid) (email : Option String) (now : Time) → Keeps P (create_invite_link s by email now)
  unfolding create_invite_link
  Keeps-create_invite_link by email now = search (keeps_rules, invite_made) depth 20

  pub Keeps-revoke : (id : Uuid) (now : Time) → Keeps P (revoke s id now)
  unfolding revoke
  Keeps-revoke id now = search (keeps_rules, rename_rules, invite_revoked) depth 20

  pub Keeps-delete_vessel : (id : Uuid) → Keeps P (Vessels.delete s id)
  unfolding Vessels.delete count_active_batches_in_vessel
  Keeps-delete_vessel id = search (keeps_rules, vessel_deleted) depth 20

  pub Keeps-update_vessel : (id : Uuid) (p : VesselParams) → Keeps P (Vessels.update s id p)
  unfolding Vessels.update
  Keeps-update_vessel id p = search (rename_rules, vessel_changed)

  pub Keeps-adjust_stock :
      (ingredient : Uuid) (delta : Float64) → Keeps P (adjust_stock s ingredient delta)
  unfolding adjust_stock adjust_body
  Keeps-adjust_stock ingredient delta = search (keeps_rules, item_ensured, quantity_set) depth 20

  pub Keeps-deduct_for_addition :
      (ingredient : Uuid) (qty : Float64) → Keeps P (deduct_for_addition s ingredient qty)
  unfolding deduct_for_addition
  Keeps-deduct_for_addition ingredient qty =
      search (keeps_rules, item_ensured, quantity_set) depth 20
