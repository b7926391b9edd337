-- ===== src/Store/Invites.antt =====
-- internal/store/gen/invites.sql.go: the queries on invites.
pub mod Laws
use cellarkeep_server.Prelude.{
  String, Bool, Option, none, some, List, [], ◌∷◌, find, has_row, update_where, sort_by, nat_eq,
  string_eq, ◌==◌, ◌||◌, ◌&&◌, not, ltb, is_some, if◌then◌else◌,
}
use cellarkeep_server.Store.Model.{Uuid, Time, User, Invite, Tables}
use cellarkeep_server.Store.Action.{
  Runtime, Store, Action, Statement, Result, ok, err, database, no_rows, unique_violation,
  foreign_key_violation, run, reading, one,
}

pub record CreateInviteParams : Type 0 where
  pub token : String
  pub email : Option String
  pub created_by : Uuid
  pub created_at : Time
  pub expires_at : Time

abbrev pub new_invite : Uuid → CreateInviteParams → Invite
new_invite id p = record {
  id = id;
  token = p.token;
  email = p.email;
  created_by = p.created_by;
  created_at = p.created_at;
  expires_at = p.expires_at;
  used_at = none;
  used_by = none;
  revoked_at = none;
}

unfoldable pub insert_invite : Runtime → CreateInviteParams → Statement Invite
insert_invite rt p t db =
    if has_row (λ (i : Invite). i.id == rt.uuid t || i.token == p.token) db.invites
    then err (database unique_violation)
    else if not (has_row (λ (u : User). u.id == p.created_by) db.users)
    then err (database foreign_key_violation)
    else ok
        (new_invite (rt.uuid t) p, record db { invites = new_invite (rt.uuid t) p ∷ db.invites })

unfoldable pub create_invite : Store → CreateInviteParams → Action Invite
create_invite s p = run s (insert_invite s.runtime p)

-- `used_at is null and revoked_at is null`
abbrev pub is_open : Invite → Bool
is_open i = not (is_some i.used_at) && not (is_some i.revoked_at)

-- The `where` clause of FindValidInvite and ClaimInvite.
abbrev pub is_valid : String → Time → Invite → Bool
is_valid token now i = i.token == token && is_open i && ltb now i.expires_at

unfoldable pub find_valid_invite : Store → String → Time → Action Invite
find_valid_invite s token now = run s (reading (λ t db. one (find (is_valid token now) db.invites)))

abbrev pub claimed : Time → Uuid → Invite → Invite
claimed now used_by i = record i { used_at = some now; used_by = some used_by }

abbrev pub changed :
    (Invite → Bool) → (Invite → Invite) → Tables → Option Invite → Result (Invite × Tables)
changed p f db none = err no_rows
changed p f db (some i) = ok (f i, record db { invites = update_where p f db.invites })

-- An update of the invites that pass the test, returning the first of them as changed.
unfoldable pub update_invite :
    (Invite → Bool) → (Invite → Invite) → Tables → Result (Invite × Tables)
update_invite p f db = changed p f db (find p db.invites)

unfoldable pub claim_invite : Store → String → Time → Uuid → Action Invite
claim_invite s token now used_by = run s λ t db.
    if not (has_row (λ (u : User). u.id == used_by) db.users)
      && has_row (is_valid token now) db.invites
    then err (database foreign_key_violation)
    else update_invite (is_valid token now) (claimed now used_by) db

abbrev pub revoked : Time → Invite → Invite
revoked now i = record i { revoked_at = some now }

unfoldable pub revoke_invite : Store → Uuid → Time → Action Invite
revoke_invite s id now = run s λ t db. update_invite (λ i. i.id == id && is_open i) (revoked now) db

pub record ListInvitesRow : Type 0 where
  pub invite : Invite
  pub created_by_name : String
  pub used_by_name : Option String

abbrev pub user_name : List User → Uuid → Option String
user_name users id = elim (find (λ (u : User). u.id == id) users) [
  | none ↦ none
  | some u ↦ some u.name
]

abbrev pub used_by_name : List User → Invite → Option String
used_by_name users i = elim i.used_by [ none ↦ none | some id ↦ user_name users id ]

-- The inner join with the creator, and the left join with the user of the invite.
unfoldable pub join_invites : List User → List Invite → List ListInvitesRow
join_invites users [] = []
join_invites users (i ∷ is) =
    let rest = join_invites users is in
    elim (user_name users i.created_by) [
      | none ↦ rest
      | some name ↦
          record { invite = i; created_by_name = name; used_by_name = used_by_name users i } ∷ rest
    ]

unfoldable pub list_invites : Store → Action (List ListInvitesRow)
unfolding join_invites
list_invites s = run s (
    reading λ t db.
      ok (join_invites db.users (sort_by (λ a b. ltb b.created_at a.created_at) db.invites)))
