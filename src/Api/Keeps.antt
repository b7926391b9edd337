-- ===== src/Api/Keeps.antt =====
-- The handlers, the wrappers and the middleware of internal/api and internal/auth keep what every query of
-- the store keeps.
use Prim.Native.String
use cellarkeep_server.Prelude.{String, Option, none, some, string_eq, Bool-cases, inl, inr}
use cellarkeep_server.Store.Model.{Uuid, User, Tables}
use cellarkeep_server.Store.Action.{Result, ok, err, World, Action, pure, ◌>>=◌, clock}
use cellarkeep_server.Store.Keeps.{Keeps, Stable, keeps_rules}
use cellarkeep_server.Store.Users.{count_users, get_user, list_users}
use cellarkeep_server.Store.Invites.{list_invites as query_invites, find_valid_invite}
use cellarkeep_server.Store.Inventory.{list_inventory as query_inventory}
use cellarkeep_server.Store.Vessels.{list_vessels_with_occupant}
use cellarkeep_server.Http.{Response, Principal, problem}
use cellarkeep_server.Domain.Keeps.{
  rename_rules, Keeps-setup, Keeps-login, Keeps-register, Keeps-change_password,
  Keeps-create_session, Keeps-delete_session, Keeps-create_invite_link, Keeps-revoke,
  Keeps-delete_vessel, Keeps-update_vessel, Keeps-adjust_stock,
}
use cellarkeep_server.Domain.Sessions.{list_invite_links, find_valid}
use cellarkeep_server.Domain.Vessels.{list as vessels, create as make_vessel}
use cellarkeep_server.Domain.Inventory.{list as inventory, create as make_ingredient}
use cellarkeep_server.Api.Types.{
  SetupRequest, Credentials, RegisterRequest, ChangePasswordRequest, InviteCreate, VesselInput,
  IngredientInput, StockAdjust, Decoded, Reply, decode,
}
use cellarkeep_server.Api.Handlers.{
  Handlers, Server, handle, written, start_session, auth_status, auth_setup, allow_login,
  finish_login, limited_login, auth_login, auth_logout, auth_me, auth_register,
  auth_change_password, list_members, client_ip, email_key, signed_in,
}
use cellarkeep_server.Api.Handlers.Invites.{
  list_invites, create_invite, revoke_invite, preview_invite,
}
use cellarkeep_server.Api.Handlers.Vessels.{
  list_vessels, create_vessel, delete_vessel, update_vessel,
}
use cellarkeep_server.Api.Handlers.Stock.{create_ingredient, list_inventory, adjust}

-- A handler that keeps a predicate on the tables.
pub record Respects (P : Tables → Type 0) (f : Server → Response Reply × Server) : Type 0 where
  pub at : (s : Server) → P s.world.tables → P (f s).1.world.tables

module _ (h : Handlers) (P : Tables → Type 0) (k : Stable h.store P) where
  Respects-handle : (m : Action (Response Reply)) → Keeps P m → Respects P (handle m)
  unfolding handle
  Respects-handle m km = record { at = λ s p. told (m s.world) s (km.at s.world p) }
    where
      told :
          (q : Result (Response Reply) × World) (s : Server)
          → P q.1.tables
          → P (written q s.logins).1.world.tables
      told (ok r, w) s p = p
      told (err e, w) s p = p

  Keeps-start_session : (u : User) → Keeps P (start_session h u)
  unfolding start_session
  Keeps-start_session u = search (keeps_rules, Keeps-create_session h.store P k) depth 20

  pub Respects-auth_setup : (body : Decoded SetupRequest) → Respects P (auth_setup h body)
  unfolding auth_setup
  Respects-auth_setup body =
      Respects-handle _
        (search (keeps_rules, Keeps-setup h.store P k, Keeps-start_session) depth 20)

  pub Respects-auth_register : (body : Decoded RegisterRequest) → Respects P (auth_register h body)
  unfolding auth_register
  Respects-auth_register body =
      Respects-handle _
        (search (keeps_rules, Keeps-register h.store P k, Keeps-start_session) depth 20)

  pub Respects-auth_status : Respects P (auth_status h)
  unfolding auth_status count_users
  Respects-auth_status = Respects-handle _ (search keeps_rules)

  pub Respects-auth_logout : (cookie : Option String) → Respects P (auth_logout h cookie)
  unfolding auth_logout
  Respects-auth_logout none = Respects-handle _ (search keeps_rules)
  Respects-auth_logout (some id) =
      Respects-handle _ (search (keeps_rules, Keeps-delete_session h.store P k) depth 20)

  pub Respects-auth_me : (ctx : Option Principal) → Respects P (auth_me h ctx)
  unfolding auth_me get_user
  Respects-auth_me ctx = Respects-handle _ (search (keeps_rules, rename_rules) depth 20)

  pub Respects-auth_change_password :
      (ctx : Option Principal) (body : Decoded ChangePasswordRequest)
      → Respects P (auth_change_password h ctx body)
  unfolding auth_change_password
  Respects-auth_change_password ctx body =
      Respects-handle _ (search (keeps_rules, Keeps-change_password h.store P k) depth 20)

  pub Respects-list_members : Respects P (list_members h)
  unfolding list_members list_users
  Respects-list_members = Respects-handle _ (search keeps_rules)

  Keeps-finish :
      (r : Result User)
      → Keeps P (elim r as (λ _. Action (Response Reply)) [
        | err e ↦ pure (problem 403 "invalid credentials" "")
        | ok u ↦ (do c ← start_session h u; pure (signed_in 200 u c))
      ])
  Keeps-finish (err e) = search keeps_rules
  Keeps-finish (ok u) = search (keeps_rules, Keeps-start_session) depth 20

  Respects-finish_login : (input : Credentials) → Respects P (finish_login h input)
  unfolding finish_login
  Respects-finish_login input =
      Respects-handle _ (search (keeps_rules, Keeps-login h.store P k, Keeps-finish) depth 20)

  Respects-allow_login :
      (key : String) (s : Server) → P s.world.tables → P (allow_login h key s).1.world.tables
  unfolding allow_login clock
  Respects-allow_login key s p = p

  Respects-limited_login :
      (remote_addr : String) (input : Credentials) → Respects P (limited_login h remote_addr input)
  unfolding limited_login
  Respects-limited_login remote_addr input = record {
    at = λ s p.
        let ip = client_ip h.store.runtime remote_addr in
        let s' = (allow_login h ip s).1 in
        let account = String.◌++◌ "email:" (email_key h.store.runtime input.email) in
        let p' = Respects-allow_login ip s p in
        let p'' = Respects-allow_login account s' p' in
        elim (Bool-cases (allow_login h ip s).0) [
          | inr refused ↦ simp refused p'
          | inl passed ↦ elim (Bool-cases (allow_login h account s').0) [
            | inr refused ↦ simp (passed, refused) p''
            | inl passed' ↦ simp (passed, passed') ((Respects-finish_login input).at _ p'')
          ]
        ];
  }

  pub Respects-auth_login :
      (remote_addr : String) (body : Decoded Credentials)
      → Respects P (auth_login h remote_addr body)
  unfolding auth_login decode
  Respects-auth_login remote_addr Decoded.too_large = record { at = λ s p. p }
  Respects-auth_login remote_addr (Decoded.malformed e) = record { at = λ s p. p }
  Respects-auth_login remote_addr (Decoded.decoded input) = Respects-limited_login remote_addr input

  pub Respects-list_invites : Respects P (list_invites h)
  unfolding list_invites list_invite_links query_invites
  Respects-list_invites = Respects-handle _ (search keeps_rules)

  pub Respects-create_invite :
      (ctx : Option Principal) (body : Option (Decoded InviteCreate))
      → Respects P (create_invite h ctx body)
  unfolding create_invite get_user
  Respects-create_invite ctx body =
      Respects-handle _ (search (keeps_rules, Keeps-create_invite_link h.store P k) depth 20)

  pub Respects-revoke_invite : (id : Uuid) → Respects P (revoke_invite h id)
  unfolding revoke_invite get_user
  Respects-revoke_invite id =
      Respects-handle _ (search (keeps_rules, Keeps-revoke h.store P k) depth 20)

  pub Respects-preview_invite : (token : String) → Respects P (preview_invite h token)
  unfolding preview_invite find_valid find_valid_invite
  Respects-preview_invite token = Respects-handle _ (search (keeps_rules, rename_rules) depth 20)

  pub Respects-list_vessels : Respects P (list_vessels h)
  unfolding list_vessels vessels list_vessels_with_occupant
  Respects-list_vessels = Respects-handle _ (search keeps_rules depth 20)

  pub Respects-create_vessel : (body : Decoded VesselInput) → Respects P (create_vessel h body)
  unfolding create_vessel make_vessel
  Respects-create_vessel body = Respects-handle _ (search (keeps_rules, k.vessel_made) depth 20)

  pub Respects-update_vessel :
      (id : Uuid) (body : Decoded VesselInput) → Respects P (update_vessel h id body)
  unfolding update_vessel
  Respects-update_vessel id body =
      Respects-handle _ (search (keeps_rules, Keeps-update_vessel h.store P k) depth 20)

  pub Respects-delete_vessel : (id : Uuid) → Respects P (delete_vessel h id)
  unfolding delete_vessel
  Respects-delete_vessel id =
      Respects-handle _ (search (keeps_rules, Keeps-delete_vessel h.store P k) depth 20)

  pub Respects-create_ingredient :
      (body : Decoded IngredientInput) → Respects P (create_ingredient h body)
  unfolding create_ingredient make_ingredient
  Respects-create_ingredient body =
      Respects-handle _ (search (keeps_rules, k.ingredient_made) depth 20)

  pub Respects-list_inventory : Respects P (list_inventory h)
  unfolding list_inventory inventory query_inventory
  Respects-list_inventory = Respects-handle _ (search keeps_rules depth 20)

  pub Respects-adjust : (id : Uuid) (body : Decoded StockAdjust) → Respects P (adjust h id body)
  unfolding adjust
  Respects-adjust id body =
      Respects-handle _ (search (keeps_rules, Keeps-adjust_stock h.store P k) depth 20)
