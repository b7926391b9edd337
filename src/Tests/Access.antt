-- ===== src/Tests/Access.antt =====
-- Witnesses for the router and the composed server.
use cellarkeep_server.Prelude.{String, false, some, none, [], ◌∷◌, string_eq, ◌≡◌, ◌⊎◌, refl}
use cellarkeep_server.Prelude.Text.{strip_prefix, trim_prefix}
use cellarkeep_server.Http.{Request, Handler, write_header}
use cellarkeep_server.Auth.Middleware.{is_unsafe}
use cellarkeep_server.Api.Router.{RouteTable, resolve, read, gate}
use cellarkeep_server.Api.Router.Gate.{Gated, level, gate_lem}
use cellarkeep_server.Api.Types.{Reply}
use cellarkeep_server.Api.Handlers.{Handlers, Server, new_logins}
use cellarkeep_server.Api.Server.{serve}
use cellarkeep_server.Api.Server.Access.{Refused, AdminCookie, admin_route}
use cellarkeep_server.Api.Server.Access.Origin.{foreign_write-Refused}
use cellarkeep_server.Tests.{store1, world1}

abbrev table1 : RouteTable
table1 = record {
  by_route = ("GET /vessels", "listVessels") ∷ ("POST /invites", "createInvite") ∷ [];
  known = "listVessels" ∷ "createInvite" ∷ [];
}

abbrev server1 : Server
server1 = record { world = world1; logins = new_logins }

abbrev handlers2 : Handlers
handlers2 = record {
  store = store1;
  client_origin = "https://app";
  insecure = false;
  decoy_hash = "decoy";
}

abbrev no_content : Handler Server Reply
no_content ctx r s = (write_header 204, s)

abbrev teapot : Handler Server Reply
teapot ctx r s = (write_header 418, s)

-- An administrator's request to make an invite, from an origin.
abbrev request_from : String → Request
request_from origin = record {
  method = "POST";
  authorization = "";
  origin = origin;
  cookie = some "sid";
  remote_addr = "1.2.3.4";
  pattern = "/api/v1/invites";
}

abbrev from_app : Request
from_app = request_from "https://app"

abbrev from_elsewhere : Request
from_elsewhere = request_from "https://elsewhere"

gate_lem_example :
    Gated no_content from_app server1
      (level table1 (resolve table1 "POST" "/api/v1/invites"))
      none
      (gate table1 no_content none from_app server1)
gate_lem_example = gate_lem table1 no_content none from_app server1

admin_route_example :
    ((serve handlers2 table1 no_content from_app server1
        ≡ serve handlers2 table1 teapot from_app server1)
      × Refused (serve handlers2 table1 no_content from_app server1))
    ⊎ AdminCookie handlers2 from_app server1
unfolding resolve read strip_prefix trim_prefix
admin_route_example = admin_route handlers2 table1 no_content teapot from_app server1 refl

foreign_write-Refused_example :
    (serve handlers2 table1 no_content from_elsewhere server1
      ≡ serve handlers2 table1 teapot from_elsewhere server1)
    × Refused (serve handlers2 table1 no_content from_elsewhere server1)
unfolding resolve read strip_prefix trim_prefix is_unsafe
foreign_write-Refused_example =
    foreign_write-Refused handlers2 table1 no_content teapot from_elsewhere server1 refl refl refl
