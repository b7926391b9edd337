-- ===== src/Api/Wrapper/Once.antt =====
-- What happens once, whatever requests the server answers in between.
use cellarkeep_server.Prelude.{
  ◌≤◌, String, Bool, true, false, none, some, List, [], ◌∷◌, find, has_row, nat_eq, string_eq, ◌==◌,
  ◌≡◌, refl, arith, subst, sym, has_row-update_where,
}
use cellarkeep_server.Store.Model.{Time, User, Invite, Tables}
use cellarkeep_server.Store.Action.{Runtime, World, ok}
use cellarkeep_server.Store.Triple.{Post, AllOrNothing}
use cellarkeep_server.Store.Invites.{is_valid, claimed}
use cellarkeep_server.Http.{Request}
use cellarkeep_server.Domain.Users.{setup, register}
use cellarkeep_server.Domain.Users.Setup.{IsFirstAdmin, setup_outcome}
use cellarkeep_server.Domain.Users.Register.{
  IsRegistered, Refused, Refused-of_Post, register_outcome, register-Refused, IsRegistered-spent,
}
use cellarkeep_server.Api.Call.{Call}
use cellarkeep_server.Api.Router.{RouteTable}
use cellarkeep_server.Api.Handlers.{Handlers, Server}
use cellarkeep_server.Api.Wrapper.History.{
  after_requests, is_account_of, account_stays, IsSpent, Stable-IsSpent, Stable-after_requests,
}

has_row-of_find :
    (p q : Invite → Bool) (xs : List Invite) (i : Invite)
    → ((x : Invite) → p x ≡ true → q x ≡ true)
    → find p xs ≡ some i
    → has_row q xs ≡ true
has_row-of_find p q [] i sub h = cc
has_row-of_find p q (x ∷ xs) i sub h = ground (arith, sub x, has_row-of_find p q xs i sub)

find-none : (p : Invite → Bool) (xs : List Invite) → find p xs ≡ none → has_row p xs ≡ false
find-none p [] h = refl
find-none p (x ∷ xs) h = ground (arith, find-none p xs)

find-has_row : (p : Invite → Bool) (xs : List Invite) → has_row p xs ≡ false → find p xs ≡ none
find-has_row p [] h = refl
find-has_row p (x ∷ xs) h = ground (arith, find-has_row p xs)

-- After a registration the token of its invite is spent.
IsRegistered-IsSpent :
    (rt : Runtime) (token address called password : String) (now later : Time) (before : Tables)
    (u : User) (db : Tables)
    → now ≤ later
    → IsRegistered rt token address called password now before u db
    → IsSpent token later db.invites
IsRegistered-IsSpent rt token address called password now later before u db le r =
    let there : has_row (λ (i : Invite). i.token == token) before.invites ≡ true =
      has_row-of_find (is_valid token now) _ before.invites r.invite (λ x v. ground arith)
        r.found in
    (
      subst (λ (x : Tables). has_row (λ (i : Invite). i.token == token) x.invites ≡ true)
          (sym r.tables)
          (has_row-update_where _ (is_valid token now) (claimed now u.id) (λ i e. e) before.invites
            there),
      find-none _ db.invites
          (IsRegistered-spent rt token address called password now later before u db r le),
    )

-- An invite is used once, whatever happens in between: after a successful registration by a token and any
-- sequence of requests, every registration by it at the time of the first or later fails and changes
-- nothing.
pub register_once_ever :
    (h : Handlers) (t : RouteTable) (token address called password : String) (now : Time)
    (s : Server) (u : User) (w' : World) (rs : List (Call × Request))
    (address' called' password' : String) (later : Time)
    → h.store.tx ≡ false
    → register h.store token address called password now s.world ≡ (ok u, w')
    → now ≤ later
    → let v = (after_requests h t rs (record s { world = w' })).world in
      Refused v.tables (register h.store token address' called' password' later v)
register_once_ever h t token address called password now s u w' rs address' called' password' later
      no_tx done le =
    let first : IsRegistered h.store.runtime token address called password now s.world.tables u
        w'.tables =
      subst
        (Post (IsRegistered h.store.runtime token address called password now s.world.tables) (
          AllOrNothing s.world.tables
            (IsRegistered h.store.runtime token address called password now s.world.tables)))
        done (register_outcome h.store token address called password now s.world no_tx) in
    let spent =
      IsRegistered-IsSpent h.store.runtime token address called password now later s.world.tables u
        w'.tables le first in
    let v = after_requests h t rs (record s { world = w' }) in
    register-Refused h.store token address' called' password' later v.world no_tx (
      find-has_row _ v.world.tables.invites
        (Stable-after_requests h t _ (Stable-IsSpent h.store token later) rs
          (record s { world = w' }) spent).1)

-- The first account is made once: after any sequence of requests to a server that has an account, Setup
-- outside a transaction fails and changes nothing.
pub setup_once_ever :
    (h : Handlers) (t : RouteTable) (s : Server) (u : User) (rs : List (Call × Request))
    (email name password : String)
    → h.store.tx ≡ false
    → has_row (is_account_of u) s.world.tables.users ≡ true
    → let v = (after_requests h t rs s).world in
      Refused v.tables (setup h.store email name password v)
setup_once_ever h t s u rs email name password no_tx there =
    let v = (after_requests h t rs s).world in
    let still = account_stays h t rs s u there in
    Refused-of_Post v.tables (IsFirstAdmin h.store.runtime email name password v.tables)
      (setup h.store email name password v)
      (λ a db f.
        cc (still, subst (λ xs. has_row (is_account_of u) xs ≡ false) (sym f.was_empty) refl))
      (setup_outcome h.store email name password v no_tx)
