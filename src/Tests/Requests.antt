-- ===== src/Tests/Requests.antt =====
-- Witnesses for whole requests and sequences of them.
use Prim.Native.Char.{Char, code}
use Prim.Native.String
use cellarkeep_server.Prelude.{
  false, some, none, List, [], ◌∷◌, nat_eq, ◌==◌, ◌≡◌, inr, ◌⊎◌, refl, if◌then◌else◌, arith,
}
use cellarkeep_server.Store.Action.{World, run, with_tx, draw}
use cellarkeep_server.Store.Users.{create_user, insert_user}
use cellarkeep_server.Store.Invites.{find_valid_invite, claim_invite, update_invite}
use cellarkeep_server.Http.{Request, Response}
use cellarkeep_server.Api.Types.{Reply}
use cellarkeep_server.Api.Server.Access.{AdminCookie}
use cellarkeep_server.Api.Wrapper.Admin.{TurnedAway}
use cellarkeep_server.Api.App.{
  new_handlers, Deps, App, operation, replied, new_router, new_router_guards,
}
use cellarkeep_server.Auth.Password.{hash_password}
use cellarkeep_server.Domain.Users.{norm_email, is_for_other, setup, register, register_body}
use cellarkeep_server.Domain.Users.Register.{Refused}
use cellarkeep_server.Api.Call.{Call, bound, route_of, routed}
use cellarkeep_server.Api.Router.{RouteTable, new_route_table, base_path, resolve}
use cellarkeep_server.Api.Router.Gate.{level}
use cellarkeep_server.Api.Handlers.{Handlers, Server, new_logins}
use cellarkeep_server.Api.Wrapper.Contract.{contract, LowersInitials, access, access_lem}
use cellarkeep_server.Api.Wrapper.History.{after_requests}
use cellarkeep_server.Api.Wrapper.Once.{register_once_ever, setup_once_ever}
use cellarkeep_server.Tests.{store1, world1, admin1}
use cellarkeep_server.Tests.Members.{registered, member3}

-- The lower-case letter of an initial of the operation ids.
abbrev lower : Char → Char
lower c =
    if code c == code "A"
    then "a"
    else if code c == code "C"
    then "c"
    else if code c == code "D"
    then "d"
    else if code c == code "L"
    then "l"
    else if code c == code "P"
    then "p"
    else if code c == code "R"
    then "r"
    else if code c == code "U"
    then "u"
    else c

lower-LowersInitials : LowersInitials lower
lower-LowersInitials = record {
  low_a = refl;
  low_c = refl;
  low_d = refl;
  low_l = refl;
  low_p = refl;
  low_r = refl;
  low_u = refl;
}

abbrev table3 : RouteTable
table3 = new_route_table lower (some contract)

abbrev handlers3 : Handlers
handlers3 = record {
  store = store1;
  client_origin = "https://app";
  insecure = false;
  decoy_hash = "decoy";
}

abbrev server3 : World → Server
server3 w = record { world = w; logins = new_logins }

abbrev by_admin : Request
by_admin = record {
  method = "";
  pattern = "";
  authorization = "";
  cookie = some "sid";
  origin = "https://app";
  remote_addr = "1.2.3.4";
}

-- An administrator invites, revokes the invite and deletes the vessel.
abbrev revoking : Call
revoking = Call.revoke_invite (bound 7)

abbrev history : List (Call × Request)
history =
    (Call.create_invite none, by_admin)
    ∷ (revoking, by_admin)
    ∷ (Call.delete_vessel (bound 3), by_admin)
    ∷ []

access_lem_example :
    level table3
      (resolve table3 (route_of revoking).0 (String.◌++◌ base_path (route_of revoking).1))
    ≡ access revoking
access_lem_example = access_lem lower revoking lower-LowersInitials

setup_once_ever_example :
    let v = (after_requests handlers3 table3 history (server3 world1)).world in
    Refused v.tables (setup store1 "x@y.org" "Max" "secret" v)
setup_once_ever_example =
    setup_once_ever handlers3 table3 (server3 world1) admin1 history "x@y.org" "Max" "secret" refl
      refl

register_once_ever_example :
    let v = (after_requests handlers3 table3 history (server3 registered)).world in
    Refused v.tables (register store1 "invite" "e@f.org" "Eve" "other" 6 v)
unfolding register register_body with_tx draw run find_valid_invite create_user insert_user
    claim_invite update_invite norm_email is_for_other hash_password
register_once_ever_example =
    register_once_ever handlers3 table3 "invite" "c@d.org" "Cy" "secret" 5 (server3 world1) member3
      registered history "e@f.org" "Eve" "other" 6 refl refl (omega arith)

abbrev deps3 : Deps
deps3 = record {
  ping = λ w. none;
  store = store1;
  cfg = record {
    database_url = "postgres://db";
    session_secret = "secret";
    client_origin = "https://app";
    addr = ":8080";
  };
  unmarshal = inr "document";
  marshal = λ doc. inr "{}";
}

new_router_guards_example :
    (app : App) × (new_router lower "decoy" deps3 (inr (some contract)) ≡ inr app)
    × ((c : Call) (r : Request) (s : Server)
        → access c ≡ access Call.list_members
        → AdminCookie (new_handlers "decoy" deps3) (routed c r) s
          ⊎ ((out : Response Reply × Server) × (app (operation c) r s ≡ replied out)
              × TurnedAway s out))
new_router_guards_example = new_router_guards lower "decoy" deps3 lower-LowersInitials
