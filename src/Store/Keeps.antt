-- ===== src/Store/Keeps.antt =====
-- Predicates on the tables that an action keeps on every outcome: a rule for each way to build an action,
-- and the interface by which a predicate is kept by every query that writes.
pub mod Parts
use cellarkeep_server.Prelude.{
  ℕ, String, Bool, true, false, Option, none, some, List, ◌≡◌, refl, arith, subst, if◌then◌else◌,
}
use cellarkeep_server.Store.Model.{Uuid, Time, Float32, Tables}
use cellarkeep_server.Store.Action.{
  Link, up, down, lost, Error, Result, ok, err, random_failed, World, Store, Action, Statement,
  pure, raise, raise_if, attempt, of_result, ◌>>=◌, resume, after, finish, in_tx, settle, send, run,
  reading, with_tx, draw, clock,
}
use cellarkeep_server.Store.Users.{
  CreateUserParams, create_user, update_user_password, create_session, touch_session,
  delete_session, delete_user_sessions,
}
use cellarkeep_server.Store.Invites.{CreateInviteParams, create_invite, claim_invite, revoke_invite}
use cellarkeep_server.Store.Vessels.{VesselParams, create_vessel, update_vessel, delete_vessel}
use cellarkeep_server.Store.Inventory.{
  CreateIngredientParams, create_ingredient, ensure_inventory_item, set_inventory_quantity,
}

-- The action keeps the predicate, whether it returns or fails.
pub record Keeps {A : Type 0} (P : Tables → Type 0) (m : Action A) : Type 0 where
  pub at : (w : World) → P w.tables → P (m w).1.tables

module _ {A : Type 0} {P : Tables → Type 0} where
  pub Keeps-pure : (a : A) → Keeps P (pure a)
  Keeps-pure a = record { at = λ w h. h }

  pub Keeps-raise : (e : Error) → Keeps P (raise {A = A} e)
  Keeps-raise e = record { at = λ w h. h }

  pub Keeps-of_result : (r : Result A) → Keeps P (of_result r)
  Keeps-of_result r = record { at = λ w h. h }

  pub Keeps-attempt : (m : Action A) → Keeps P m → Keeps P (attempt m)
  Keeps-attempt m k = record { at = λ w h. k.at w h }

  pub Keeps-if : (b : Bool) (m n : Action A) → Keeps P m → Keeps P n → Keeps P (if b then m else n)
  Keeps-if true m n km kn = km
  Keeps-if false m n km kn = kn

  -- A statement that keeps the predicate when it takes effect.
  pub Keeps-run :
      (s : Store) (f : Statement A)
      → ((t : ℕ) (db : Tables) (a : A) (db' : Tables) → P db → f t db ≡ ok (a, db') → P db')
      → Keeps P (run s f)
  unfolding run
  Keeps-run s f k = record {
    at = λ w h. sent (s.runtime.link w.tick) w h (f w.tick w.tables) (k w.tick w.tables);
  }
    where
      settled :
          (b : Bool) (w : World)
          → P w.tables
          → (r : Result (A × Tables))
          → ((a : A) (db' : Tables) → P w.tables → r ≡ ok (a, db') → P db')
          → P (settle b w r).1.tables
      settled b w h (ok (a, db')) k' = k' a db' h refl
      settled b w h (err e) k' = h

      sent :
          (l : Link) (w : World)
          → P w.tables
          → (r : Result (A × Tables))
          → ((a : A) (db' : Tables) → P w.tables → r ≡ ok (a, db') → P db')
          → P (send l w r).1.tables
      sent up w h r k' = settled true w h r k'
      sent lost w h r k' = settled false w h r k'
      sent down w h r k' = h

  pub Keeps-with_tx : (s : Store) (fn : Action A) → Keeps P fn → Keeps P (with_tx s fn)
  unfolding with_tx
  Keeps-with_tx s fn k = record { at = λ w h. ended s.tx w h }
    where
      finished :
          (l : Link) (t : Tables) (p : Result A × World)
          → P t
          → P p.1.tables
          → P (finish l t p).1.tables
      finished up t (ok a, w) h h' = h'
      finished lost t (ok a, w) h h' = h'
      finished down t (ok a, w) h h' = h
      finished up t (err e, w) h h' = h
      finished _ t (err e, w) h h' = h

      begun : (l : Link) (w : World) → P w.tables → P (in_tx l s fn w).1.tables
      begun up w h =
          finished (s.runtime.link (fn (after w)).1.tick) w.tables (fn (after w)) h
            (k.at (after w) h)
      begun down w h = h
      begun lost w h = h

      ended :
          (b : Bool) (w : World)
          → P w.tables
          → P (if b then fn w else in_tx (s.runtime.link w.tick) s fn w).1.tables
      ended true w h = k.at w h
      ended false w h = begun (s.runtime.link w.tick) w h

module _ {A B : Type 0} {P : Tables → Type 0} where
  pub Keeps-bind :
      (m : Action A) (f : A → Action B) → Keeps P m → ((a : A) → Keeps P (f a)) → Keeps P (m >>= f)
  Keeps-bind m f km kf = record { at = λ w h. resumed (m w) (km.at w h) }
    where
      resumed : (p : Result A × World) → P p.1.tables → P (resume f p).1.tables
      resumed (ok a, w) h = (kf a).at w h
      resumed (err e, w) h = h

module _ {P : Tables → Type 0} where
  pub Keeps-raise_if : (b : Bool) (e : Error) → Keeps P (raise_if b e)
  Keeps-raise_if b e = record { at = λ w h. h }

  pub Keeps-draw : (s : Store) (n : ℕ) → Keeps P (draw s n)
  unfolding draw
  Keeps-draw s n = record { at = λ w h. drawn w h (s.runtime.random w.tick n) }
    where
      drawn :
          (w : World)
          → P w.tables
          → (o : Option (List ℕ))
          → P
              (elim o as (λ _. Result (List ℕ) × World) [
                | none ↦ (err random_failed, after w)
                | some bytes ↦ (ok bytes, after w)
              ]).1.tables
      drawn w h none = h
      drawn w h (some bytes) = h

  pub Keeps-clock : (s : Store) → Keeps P (clock s)
  unfolding clock
  Keeps-clock s = record { at = λ w h. h }

reading-tables :
    {A : Type 0} (f : ℕ → Tables → Result A) (t : ℕ) (db : Tables) (a : A) (db' : Tables)
    → reading f t db ≡ ok (a, db')
    → db ≡ db'
reading-tables f t db a db' h = ground arith

pub Keeps-reading :
    {A : Type 0} {P : Tables → Type 0} (s : Store) (f : ℕ → Tables → Result A)
    → Keeps P (run s (reading f))
Keeps-reading {P = P} s f =
    Keeps-run s (reading f) (λ t db a db' h e. subst P (reading-tables f t db a db' e) h)

-- Every query that writes keeps the predicate.
pub record Stable (s : Store) (P : Tables → Type 0) : Type 0 where
  pub user_made : (p : CreateUserParams) → Keeps P (create_user s p)
  pub password_set : (id : Uuid) (hash : String) → Keeps P (update_user_password s id hash)
  pub session_made :
      (id : String) (user : Uuid) (expires : Time) → Keeps P (create_session s id user expires)
  pub session_touched : (id : String) (expires : Time) → Keeps P (touch_session s id expires)
  pub session_dropped : (id : String) → Keeps P (delete_session s id)
  pub sessions_dropped : (user : Uuid) → Keeps P (delete_user_sessions s user)
  pub invite_made : (p : CreateInviteParams) → Keeps P (create_invite s p)
  pub invite_claimed :
      (token : String) (now : Time) (user : Uuid) → Keeps P (claim_invite s token now user)
  pub invite_revoked : (id : Uuid) (now : Time) → Keeps P (revoke_invite s id now)
  pub vessel_made : (p : VesselParams) → Keeps P (create_vessel s p)
  pub vessel_changed : (id : Uuid) (p : VesselParams) → Keeps P (update_vessel s id p)
  pub vessel_deleted : (id : Uuid) → Keeps P (delete_vessel s id)
  pub ingredient_made : (p : CreateIngredientParams) → Keeps P (create_ingredient s p)
  pub item_ensured : (ingredient : Uuid) → Keeps P (ensure_inventory_item s ingredient)
  pub quantity_set : (id : Uuid) (q : Float32) → Keeps P (set_inventory_quantity s id q)

pub ruleset keeps_rules = (
  Keeps-pure, Keeps-raise, Keeps-of_result, Keeps-attempt, Keeps-if, Keeps-with_tx, Keeps-bind,
  Keeps-raise_if, Keeps-draw, Keeps-clock, Keeps-reading,
)
