-- ===== src/Domain/Sessions.antt =====
-- internal/domain/users.go, the sessions and the invites; internal/domain/devices.go.
pub mod Lookup
pub mod SignOut
use cellarkeep_server.Prelude.{
  ℕ, ◌+◌, ◌*◌, ◌/◌, String, Bool, Option, none, some, string_eq, ◌==◌, ltb, if◌then◌else◌, List,
}
use cellarkeep_server.Store.Model.{Uuid, Time, Invite}
use cellarkeep_server.Store.Action.{
  Runtime, Store, Action, Result, ok, err, Error, forbidden, conflict, not_found, pure, raise,
  attempt, ◌>>=◌, ◌>>◌, draw, clock,
}
use cellarkeep_server.Store.Users.{
  GetSessionWithUserRow, create_session, get_session_with_user, touch_session, delete_session,
}
use cellarkeep_server.Store.Invites.{
  CreateInviteParams, ListInvitesRow, create_invite, list_invites, find_valid_invite, revoke_invite,
}
use cellarkeep_server.Http.{Principal, user}
use cellarkeep_server.Auth.Middleware.{session_ttl}
use cellarkeep_server.Domain.Users.{norm_email, mapping_no_rows, mapping_errors}

-- NewSessionID
unfoldable pub new_session_id : Store → Action String
new_session_id s = do b ← draw s 32; pure (s.runtime.base64_url b)

-- Sessions.Create, without the error in its result.
unfoldable pub create : Store → Uuid → Time → Action (String × Time)
unfolding new_session_id
create s user_id now = do
  id ← new_session_id s
  create_session s id user_id (now + session_ttl)
  pure (id, now + session_ttl)

abbrev pub user_principal : GetSessionWithUserRow → Principal
user_principal row = record { kind = user; user_id = row.user_id; role = row.role; device_id = 0 }

-- The sliding renewal, whose error is dropped.
unfoldable pub renew : Store → String → GetSessionWithUserRow → Action (Unit {0})
renew s id row = do
  now ← clock s
  if ltb row.expires_at (now + session_ttl / 2)
      then (do later ← clock s; attempt (touch_session s id (later + session_ttl)); pure tt)
      else pure tt

-- Sessions.Principal
unfoldable pub principal : Store → String → Action (Principal × Time)
unfolding renew
principal s id = do
  row ← mapping_errors forbidden (get_session_with_user s id)
  renew s id row
  pure (user_principal row, row.expires_at)

-- Sessions.Delete
unfoldable pub delete : Store → String → Action (Unit {0})
delete s id = delete_session s id

-- Devices.PrincipalForToken: every bearer token is rejected.
unfoldable pub principal_for_token : Store → String → Action Principal
principal_for_token s token = raise forbidden

-- InviteTTL, in microseconds
abbrev pub invite_ttl : Time
invite_ttl = 7 * 24 * 3600 * 1000000

-- An address that is empty after normalising is no address.
unfoldable pub invite_email : Runtime → Option String → Option String
unfolding norm_email
invite_email rt none = none
invite_email rt (some e) = if norm_email rt e == "" then none else some (norm_email rt e)

-- Invites.Create
unfoldable pub create_invite_link : Store → Uuid → Option String → Time → Action Invite
unfolding invite_email
create_invite_link s created_by email now = do
  b ← draw s 24
  create_invite s (record {
    token = s.runtime.base64_url b;
    email = invite_email s.runtime email;
    created_by = created_by;
    created_at = now;
    expires_at = now + invite_ttl;
  })

-- Invites.List
unfoldable pub list_invite_links : Store → Action (List ListInvitesRow)
list_invite_links s = list_invites s

-- Invites.Revoke
unfoldable pub revoke : Store → Uuid → Time → Action Invite
revoke s id now = mapping_no_rows conflict (revoke_invite s id now)

-- Invites.FindValid
unfoldable pub find_valid : Store → String → Time → Action Invite
find_valid s token now = mapping_no_rows not_found (find_valid_invite s token now)
