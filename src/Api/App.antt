-- ===== src/Api/App.antt =====
-- internal/api/router.go: NewRouter, from the loaded contract to the routes it serves. The database's ping,
-- the YAML and JSON libraries and the loading of the embedded contract (GetSwagger) are parameters; chi's
-- own middleware and the limit on bodies are left out.
use Prim.Native.Char.{Char}
use Prim.Native.String
use cellarkeep_server.Prelude.{
  String, Option, none, some, List, All, ◌≡◌, ◌⊎◌, inl, inr, refl, ap, arith,
}
use cellarkeep_server.Store.Action.{Store, World}
use cellarkeep_server.Config.{Config, insecure_cookies}
use cellarkeep_server.Http.{Request, Response, problem, write_json}
use cellarkeep_server.Api.Types.{Reply}
use cellarkeep_server.Api.Call.{Call, routed}
use cellarkeep_server.Api.Router.{Operation, RouteTable, CheckError, new_route_table, check}
use cellarkeep_server.Api.Router.Table.{Resolves, check_sound}
use cellarkeep_server.Api.Handlers.{Handlers, Server}
use cellarkeep_server.Api.Server.Access.{AdminCookie}
use cellarkeep_server.Api.Wrapper.{respond}
use cellarkeep_server.Api.Wrapper.Contract.{contract, LowersInitials, access, check-contract}
use cellarkeep_server.Api.Wrapper.Admin.{TurnedAway, admin_call}

-- Deps, without the logger, and the libraries that the served contract goes through.
pub record Deps : Type 0 where
  -- Pinger.Ping: the text of its error
  pub ping : World → Option String
  pub store : Store
  pub cfg : Config
  -- yaml.Unmarshal of the embedded text, and json.Marshal of a document; the left is an error
  pub unmarshal : String ⊎ String
  pub marshal : String → String ⊎ String

-- newHandlers; the decoy hash is a variable of the package domain, and the limiter is part of the server's
-- state.
unfoldable pub new_handlers : String → Deps → Handlers
unfolding insecure_cookies
new_handlers decoy d = record {
  store = d.store;
  client_origin = d.cfg.client_origin;
  insecure = insecure_cookies d.cfg;
  decoy_hash = decoy;
}

-- What the two routes outside the contract answer with.
pub data Page : Type 0 where
  status_ok : Page
  contract_page : String → Page

-- The routes that NewRouter registers.
pub data Route : Type 0 where
  healthz : Route
  openapi_json : Route
  operation : Call → Route

pub data Answer : Type 0 where
  page : Response Page → Answer
  reply : Response Reply → Answer

-- The panics of NewRouter.
pub data Panic : Type 0 where
  cannot_load : String → Panic
  unresolved : CheckError → Panic

abbrev pub App : Type 0
App = Route → Request → Server → Answer × Server

-- contractJSON
abbrev pub encoded : (String → String ⊎ String) → String ⊎ String → String ⊎ String
encoded marshal (inl e) = inl (String.◌++◌ "openapi: parse contract: " e)
encoded marshal (inr doc) = elim (marshal doc) [
  | inl e ↦ inl (String.◌++◌ "openapi: encode contract: " e)
  | inr b ↦ inr b
]

unfoldable pub contract_json : Deps → String ⊎ String
contract_json d = encoded d.marshal d.unmarshal

abbrev pub health : Option String → Response Page
health none = write_json 200 status_ok
health (some e) = problem 503 "database unreachable" e

abbrev pub spec_page : String ⊎ String → Response Page
spec_page (inl e) = problem 500 "spec unavailable" ""
spec_page (inr b) = write_json 200 (contract_page b)

abbrev pub replied : Response Reply × Server → Answer × Server
replied (r, s) = (reply r, s)

-- The mux, once the table is made.
unfoldable pub routes : Handlers → Deps → RouteTable → App
unfolding contract_json
routes h d t healthz r s = (page (health (d.ping s.world)), s)
routes h d t openapi_json r s = (page (spec_page (contract_json d)), s)
routes h d t (operation c) r s = replied (respond h t c r s)

abbrev pub unless_unresolved : Option CheckError → App → Panic ⊎ App
unless_unresolved (some e) app = inl (unresolved e)
unless_unresolved none app = inr app

module _ (low : Char → Char) (decoy : String) (d : Deps) where
  -- NewRouter, on the outcome of GetSwagger.
  unfoldable pub new_router : String ⊎ Option (List Operation) → Panic ⊎ App
  unfolding check new_route_table routes new_handlers
  new_router (inl e) = inl (cannot_load e)
  new_router (inr spec) =
      let t = new_route_table low spec in
      unless_unresolved (check low t spec) (routes (new_handlers decoy d) d t)

  unless_unresolved-inr :
      (e : Option CheckError) (app app' : App)
      → unless_unresolved e app ≡ inr app'
      → (e ≡ none) × (app ≡ app')
  unless_unresolved-inr none app app' x = (refl, ground arith)
  unless_unresolved-inr (some e) app app' x = cc

  -- Whatever contract it is given, NewRouter panics or has a table in which every operation of the contract
  -- resolves to its own id.
  pub new_router-Resolves :
      (spec : Option (List Operation)) (app : App)
      → new_router (inr spec) ≡ inr app
      → (ops : List Operation) × (spec ≡ some ops)
        × All (Resolves low (new_route_table low spec)) ops
  unfolding new_router
  new_router-Resolves none app e = cc
  new_router-Resolves (some ops) app e = (
    ops,
    refl,
    check_sound low (new_route_table low (some ops)) ops (unless_unresolved-inr _ _ app e).0,
  )

  -- On the repository's contract NewRouter does not panic, and the server that it makes turns away every
  -- call of an operation on invites or members but an administrator's.
  pub new_router_guards :
      LowersInitials low
      → (app : App) × (new_router (inr (some contract)) ≡ inr app)
        × ((c : Call) (r : Request) (s : Server)
            → access c ≡ access Call.list_members
            → AdminCookie (new_handlers decoy d) (routed c r) s
              ⊎ ((out : Response Reply × Server) × (app (operation c) r s ≡ replied out)
                  × TurnedAway s out))
  unfolding new_router routes
  new_router_guards l =
      let t = new_route_table low (some contract) in
      let h = new_handlers decoy d in
      (
        routes h d t,
        ap (λ e. unless_unresolved e (routes h d t)) (check-contract low l),
        λ c r s a. elim (admin_call low h c r s l a) [
          | inl admin ↦ inl admin
          | inr away ↦ inr (respond h t c r s, refl, away)
        ],
      )
