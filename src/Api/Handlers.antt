-- ===== src/Api/Handlers.antt =====
-- internal/api/handlers.go and handler_auth.go: the state of the server and the handlers of accounts and
-- sessions. A handler is a chain of calls whose first error is written as a problem. Logging is left
-- out. The children hold the handlers of invites, of vessels and of stock.
pub mod Invites
pub mod Vessels
pub mod Stock
pub mod Limits
use Prim.Native.String
use cellarkeep_server.Prelude.{
  ℕ, ◌*◌, String, Bool, true, false, not, Option, none, some, List, map, ltb, nat_eq, ◌==◌, [],
  if◌then◌else◌,
}
use cellarkeep_server.Store.Model.{Uuid, Time, User}
use cellarkeep_server.Store.Action.{
  Runtime, Store, World, Action, Result, ok, err, not_found, pure, of_result, attempt, clock, ◌>>=◌,
  ◌>>◌,
}
use cellarkeep_server.Store.Users.{ListUsersRow, count_users, get_user, list_users}
use cellarkeep_server.Http.{
  Response, Cookie, set_session_cookie, clear_session_cookie, Principal, from_context, problem,
  write_json, write_header, with_cookie,
}
use cellarkeep_server.Auth.Limiter.{Limiter, allow, new_limiter}
use cellarkeep_server.Domain.Users.{setup, login, register, change_password, mapping_no_rows}
use cellarkeep_server.Domain.Sessions.{create, delete}
use cellarkeep_server.Api.Types.{
  SetupRequest, Credentials, RegisterRequest, ChangePasswordRequest, User as ApiUser, Reply,
  needs_setup, user_reply, user_list, Decoded, decode, write_err,
}

-- Handlers, with the decoy hash of internal/domain/users.go and what the handlers read of the
-- configuration.
pub record Handlers : Type 0 where
  pub store : Store
  pub client_origin : String
  pub insecure : Bool
  pub decoy_hash : String

-- The state of the running server.
pub record Server : Type 0 where
  pub world : World
  pub logins : Limiter

-- auth.NewLimiter(10, 15*time.Minute), as newHandlers makes it
abbrev pub new_logins : Limiter
new_logins = record { max = 10; window = 15 * 60 * 1000000; hits = [] }

abbrev pub written : Result (Response Reply) × World → Limiter → Response Reply × Server
written (ok r, w) l = (r, record { world = w; logins = l })
written (err e, w) l = (write_err e, record { world = w; logins = l })

-- A chain of calls, the first error of which is written by writeErr.
unfoldable pub handle : Action (Response Reply) → Server → Response Reply × Server
handle m s = written (m s.world) s.logins

-- userJSON
abbrev pub user_json : User → ApiUser
user_json u = record {
  created_at = u.created_at;
  email = u.email;
  id = u.id;
  name = u.name;
  role = u.role;
}

-- startSession
unfoldable pub start_session : Handlers → User → Action Cookie
start_session h u = do
  now ← clock h.store
  started ← create h.store u.id now
  pure (set_session_cookie started.0 started.1 h.insecure)

-- AuthStatus
unfoldable pub auth_status : Handlers → Server → Response Reply × Server
auth_status h = handle (do n ← count_users h.store; pure (write_json 200 (needs_setup (n == 0))))

abbrev pub signed_in : ℕ → User → Cookie → Response Reply
signed_in status u c = with_cookie c (write_json status (user_reply (user_json u)))

-- AuthSetup
unfoldable pub auth_setup : Handlers → Decoded SetupRequest → Server → Response Reply × Server
auth_setup h body = handle (do
  input ← of_result (decode body)
  u ← setup h.store input.email input.name input.password
  c ← start_session h u
  pure (signed_in 201 u c))

-- clientIP
unfoldable pub client_ip : Runtime → String → String
client_ip rt remote_addr = elim (rt.split_host_port remote_addr) [
  | none ↦ remote_addr
  | some host ↦ host
]

abbrev pub max_email_key : ℕ
max_email_key = 254

-- emailKey
unfoldable pub email_key : Runtime → String → String
email_key rt email =
    let k = rt.to_lower (rt.trim_space email) in
    if ltb max_email_key (String.len k) then rt.byte_prefix k max_email_key else k

-- h.logins.Allow, at the time that the limiter reads
unfoldable pub allow_login : Handlers → String → Server → Bool × Server
allow_login h key s =
    let (passed, l) = allow (h.store.runtime.now s.world.tick) key s.logins in
    (passed, record { world = (clock h.store s.world).1; logins = l })

abbrev pub too_many : Response Reply
too_many = problem 429 "too many attempts" "try again in 15 minutes"

-- The part of AuthLogin behind the two limits.
unfoldable pub finish_login : Handlers → Credentials → Server → Response Reply × Server
finish_login h input = handle (do
  found ← attempt (login h.store h.decoy_hash input.email input.password)
  elim found [
    | err e ↦ pure (problem 403 "invalid credentials" "")
    | ok u ↦ (do c ← start_session h u; pure (signed_in 200 u c))
  ])

-- AuthLogin from the decoded body on: the address first and on its own, then the account.
unfoldable pub limited_login : Handlers → String → Credentials → Server → Response Reply × Server
unfolding finish_login allow_login
limited_login h remote_addr input s =
    let (by_ip, s') = allow_login h (client_ip h.store.runtime remote_addr) s in
    if not by_ip
    then (too_many, s')
    else (let (by_email, s'') =
          allow_login h (String.◌++◌ "email:" (email_key h.store.runtime input.email)) s' in
        if not by_email then (too_many, s'') else finish_login h input s'')

-- AuthLogin
unfoldable pub auth_login :
    Handlers → String → Decoded Credentials → Server → Response Reply × Server
unfolding limited_login
auth_login h remote_addr body s = elim (decode body) [
  | err e ↦ (write_err e, s)
  | ok input ↦ limited_login h remote_addr input s
]

abbrev pub signed_out : Handlers → Response Reply
signed_out h = with_cookie (clear_session_cookie h.insecure) (write_header 204)

-- The deletion of the session that a cookie names, whose error is only logged.
abbrev pub drop_session : Handlers → Option String → Action (Unit {0})
drop_session h none = pure tt
drop_session h (some id) = attempt (delete h.store id) >> pure tt

-- AuthLogout
unfoldable pub auth_logout : Handlers → Option String → Server → Response Reply × Server
auth_logout h cookie = handle (do drop_session h cookie; pure (signed_out h))

-- AuthMe
unfoldable pub auth_me : Handlers → Option Principal → Server → Response Reply × Server
auth_me h ctx = handle (do
  u ← mapping_no_rows not_found (get_user h.store (from_context ctx).user_id)
  pure (write_json 200 (user_reply (user_json u))))

-- AuthRegister
unfoldable pub auth_register : Handlers → Decoded RegisterRequest → Server → Response Reply × Server
auth_register h body = handle (do
  input ← of_result (decode body)
  now ← clock h.store
  u ← register h.store input.invite_token input.email input.name input.password now
  c ← start_session h u
  pure (signed_in 201 u c))

-- AuthChangePassword
unfoldable pub auth_change_password :
    Handlers → Option Principal → Decoded ChangePasswordRequest → Server → Response Reply × Server
auth_change_password h ctx body = handle (do
  input ← of_result (decode body)
  change_password h.store (from_context ctx).user_id input.current_password input.new_password
  pure (signed_out h))

abbrev pub member_json : ListUsersRow → ApiUser
member_json u = record {
  created_at = u.created_at;
  email = u.email;
  id = u.id;
  name = u.name;
  role = u.role;
}

-- ListMembers
unfoldable pub list_members : Handlers → Server → Response Reply × Server
list_members h =
    handle (do rows ← list_users h.store; pure (write_json 200 (user_list (map member_json rows))))
