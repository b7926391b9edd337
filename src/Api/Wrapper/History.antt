-- ===== src/Api/Wrapper/History.antt =====
-- Sequences of requests to the composed server, and what no sequence of them undoes.
use cellarkeep_server.Prelude.{
  ℕ, String, Bool, true, false, ◌&&◌, ◌||◌, Option, none, some, List, [], ◌∷◌, find, has_row,
  has_row-update_where, has_row-update_where-false, update_where, nat_eq, string_eq, ◌==◌, ◌≡◌,
  arith, eq_iff, subst, Bool-cases, inl, inr,
}
use cellarkeep_server.Store.Model.{Uuid, Time, User, Invite, Tables}
use cellarkeep_server.Store.Action.{Store, ok}
use cellarkeep_server.Store.Keeps.{Keeps-run, Stable}
use cellarkeep_server.Store.Keeps.Parts.{Stable-users, Stable-invites}
use cellarkeep_server.Store.Users.{insert_user, create_user, update_user_password}
use cellarkeep_server.Store.Invites.{
  CreateInviteParams, new_invite, insert_invite, create_invite, is_valid, claimed, revoked, changed,
  update_invite, claim_invite, revoke_invite,
}
use cellarkeep_server.Http.{Request}
use cellarkeep_server.Api.Call.{Call}
use cellarkeep_server.Api.Router.{RouteTable}
use cellarkeep_server.Api.Handlers.{Handlers, Server}
use cellarkeep_server.Api.Wrapper.{respond}
use cellarkeep_server.Api.Wrapper.Stability.{Respects-respond}

-- The server after a sequence of requests.
unfoldable pub after_requests : Handlers → RouteTable → List (Call × Request) → Server → Server
after_requests h t [] s = s
after_requests h t ((c, r) ∷ rs) s = after_requests h t rs (respond h t c r s).1

module _ (h : Handlers) (t : RouteTable) (P : Tables → Type 0) (k : Stable h.store P) where
  pub Stable-after_requests :
      (rs : List (Call × Request)) (s : Server)
      → P s.world.tables
      → P (after_requests h t rs s).world.tables
  unfolding after_requests
  Stable-after_requests [] s p = p
  Stable-after_requests ((c, r) ∷ rs) s p =
      Stable-after_requests rs (respond h t c r s).1 ((Respects-respond h P k t c r).at s p)

-- The account of a user: all but the password's hash.
abbrev pub is_account_of : User → User → Bool
is_account_of u x = x.id == u.id && x.email == u.email && x.name == u.name && x.role == u.role

module _ (s : Store) (u : User) where
  abbrev pub HasAccount : List User → Type 0
  HasAccount users = has_row (is_account_of u) users ≡ true

  account-password :
      (id : Uuid) (hash : String) (users : List User)
      → HasAccount users
      → HasAccount (update_where (λ x. x.id == id) (λ x. record x { password_hash = hash }) users)
  account-password id hash [] h = h
  account-password id hash (x ∷ xs) h = ground (arith, account-password id hash xs)

  pub Stable-account : Stable s (λ db. HasAccount db.users)
  unfolding create_user insert_user update_user_password
  Stable-account =
      Stable-users s HasAccount (λ p. Keeps-run s _ (λ t db a db' q e. ground arith))
        (λ id hash. Keeps-run s _ (λ t db a db' q e.
          let same : update_where (λ x. x.id == id) (λ x. record x { password_hash = hash })
                db.users
              ≡ db'.users =
            ground arith in
          subst HasAccount same (account-password id hash db.users q)))

-- Some invite has the token, and none that has it is valid at a time.
abbrev pub IsSpent : String → Time → List Invite → Type 0
IsSpent token now invites =
    (has_row (λ (i : Invite). i.token == token) invites ≡ true)
    × (has_row (is_valid token now) invites ≡ false)

module _ (s : Store) (token : String) (now : Time) where
  -- A change that keeps tokens and opens nothing.
  IsSpent-update :
      (p : Invite → Bool) (f : Invite → Invite)
      → ((i : Invite) → i.token == token ≡ true → (f i).token == token ≡ true)
      → ((i : Invite) → is_valid token now i ≡ false → is_valid token now (f i) ≡ false)
      → (t : ℕ) (db : Tables) (i : Invite) (db' : Tables) → IsSpent token now db.invites
      → update_invite p f db ≡ ok (i, db')
      → IsSpent token now db'.invites
  unfolding update_invite
  IsSpent-update p f kept shut t db i db' (has, none_valid) e =
      let same : update_where p f db.invites ≡ db'.invites = updated (find p db.invites) e in
      subst (IsSpent token now) same (
        has_row-update_where _ p f kept db.invites has,
        has_row-update_where-false _ p f shut db.invites none_valid,
      )
    where
      updated :
          (o : Option Invite)
          → changed p f db o ≡ ok (i, db')
          → update_where p f db.invites ≡ db'.invites
      updated none e = cc
      updated (some j) e = ground arith

  no_clash :
      (id : Uuid) (xs : List Invite)
      → has_row (λ (i : Invite). i.id == id || i.token == token) xs ≡ false
      → has_row (λ (i : Invite). i.token == token) xs ≡ false
  no_clash id [] h = h
  no_clash id (x ∷ xs) h = ground (arith, no_clash id xs)

  -- A new invite for a token that is there already is a unique violation.
  other_token :
      (p : CreateInviteParams) (id : Uuid) (xs : List Invite)
      → has_row (λ (i : Invite). i.token == token) xs ≡ true
      → has_row (λ (i : Invite). i.id == id || i.token == p.token) xs ≡ false
      → (p.token == token) ≡ false
  other_token p id xs has fresh = elim (Bool-cases (p.token == token)) [
    | inr other ↦ other
    | inl same ↦
        let fresh' : has_row (λ (i : Invite). i.id == id || i.token == token) xs ≡ false =
          subst (λ tk. has_row (λ (i : Invite). i.id == id || i.token == tk) xs ≡ false)
            ((eq_iff p.token token).0 same) fresh in
        cc (no_clash id xs fresh', has)
  ]

  IsSpent-insert :
      (p : CreateInviteParams) (t : ℕ) (db : Tables) (i : Invite) (db' : Tables)
      → IsSpent token now db.invites
      → insert_invite s.runtime p t db ≡ ok (i, db')
      → IsSpent token now db'.invites
  unfolding insert_invite
  IsSpent-insert p t db i db' (has, none_valid) e =
      let other = other_token p (s.runtime.uuid t) db.invites has (ground arith) in
      let same : new_invite (s.runtime.uuid t) p ∷ db.invites ≡ db'.invites = ground arith in
      subst (IsSpent token now) same (rw other has, rw other none_valid)

  pub Stable-IsSpent : Stable s (λ db. IsSpent token now db.invites)
  unfolding create_invite claim_invite revoke_invite
  Stable-IsSpent =
      Stable-invites s (IsSpent token now) (λ p. Keeps-run s _ (IsSpent-insert p))
        (λ tk at user. Keeps-run s _ (λ t db a db' q e.
          IsSpent-update (is_valid tk at) (claimed at user) (λ j o. o) (λ j o. ground arith) t db a
            db' q (ground arith)))
        (λ id at. Keeps-run s _ (IsSpent-update _ (revoked at) (λ j o. o) (λ j o. ground arith)))

-- No sequence of requests deletes an account or changes its address, its name or its role: in particular,
-- an administrator stays one.
pub account_stays :
    (h : Handlers) (t : RouteTable) (rs : List (Call × Request)) (s : Server) (u : User)
    → has_row (is_account_of u) s.world.tables.users ≡ true
    → has_row (is_account_of u) (after_requests h t rs s).world.tables.users ≡ true
account_stays h t rs s u = Stable-after_requests h t _ (Stable-account h.store u) rs s
