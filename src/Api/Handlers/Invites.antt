-- ===== src/Api/Handlers/Invites.antt =====
-- internal/api/handler_invites.go: the handlers of invites. Logging is left out.
use cellarkeep_server.Prelude.{String, true, false, Option, none, some, map}
use cellarkeep_server.Store.Model.{Uuid, Invite}
use cellarkeep_server.Store.Action.{Result, ok, err, pure, of_result, attempt, clock, ◌>>=◌}
use cellarkeep_server.Store.Users.{get_user}
use cellarkeep_server.Store.Invites.{ListInvitesRow}
use cellarkeep_server.Http.{Response, Principal, from_context, write_json}
use cellarkeep_server.Domain.Sessions.{create_invite_link, list_invite_links, revoke, find_valid}
use cellarkeep_server.Api.Types.{
  Invite as ApiInvite, InviteCreate, InvitePreview, Reply, invite_reply, invite_list, preview_reply,
  Decoded, decode,
}
use cellarkeep_server.Api.Handlers.{Handlers, Server, handle}

-- inviteJSON
abbrev pub invite_json : Invite → String → Option String → ApiInvite
invite_json i created_by_name used_by_name = record {
  created_at = i.created_at;
  created_by = i.created_by;
  created_by_name = created_by_name;
  email = i.email;
  expires_at = i.expires_at;
  id = i.id;
  revoked_at = i.revoked_at;
  token = i.token;
  used_at = i.used_at;
  used_by_name = used_by_name;
}

abbrev pub invite_row_json : ListInvitesRow → ApiInvite
invite_row_json row = invite_json row.invite row.created_by_name row.used_by_name

-- ListInvites
unfoldable pub list_invites : Handlers → Server → Response Reply × Server
list_invites h = handle (do
  rows ← list_invite_links h.store
  pure (write_json 200 (invite_list (map invite_row_json rows))))

-- The body is optional: `none` is a request whose ContentLength is not positive.
unfoldable pub decode_optional : Option (Decoded InviteCreate) → Result InviteCreate
decode_optional none = ok (record { email = none })
decode_optional (some body) = decode body

-- CreateInvite
unfoldable pub create_invite :
    Handlers → Option Principal → Option (Decoded InviteCreate) → Server → Response Reply × Server
unfolding decode_optional
create_invite h ctx body = handle (do
  input ← of_result (decode_optional body)
  now ← clock h.store
  inv ← create_invite_link h.store (from_context ctx).user_id input.email now
  u ← get_user h.store (from_context ctx).user_id
  pure (write_json 201 (invite_reply (invite_json inv u.name none))))

-- RevokeInvite
unfoldable pub revoke_invite : Handlers → Uuid → Server → Response Reply × Server
revoke_invite h id = handle (do
  now ← clock h.store
  inv ← revoke h.store id now
  u ← get_user h.store inv.created_by
  pure (write_json 200 (invite_reply (invite_json inv u.name none))))

-- Every error looks like a token that is not valid.
abbrev pub preview_of : Result Invite → InvitePreview
preview_of (err e) = record { email = none; valid = false }
preview_of (ok inv) = record { email = inv.email; valid = true }

-- PreviewInvite
unfoldable pub preview_invite : Handlers → String → Server → Response Reply × Server
preview_invite h token = handle (do
  now ← clock h.store
  found ← attempt (find_valid h.store token now)
  pure (write_json 200 (preview_reply (preview_of found))))
