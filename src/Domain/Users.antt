-- ===== src/Domain/Users.antt =====
-- internal/domain/users.go, the accounts: first setup, login, registration by invite, and the change
-- of a password. Every operation takes the store, `u.S` in the code.
pub mod Setup
pub mod Register
pub mod Admission
pub mod Login
pub mod Race
pub mod SetupRace
use Prim.Native.String
use cellarkeep_server.Prelude.{
  ℕ, ◌+◌, ◌*◌, String, Bool, true, false, not, ◌&&◌, ◌||◌, Option, none, some, nat_eq, string_eq,
  ◌==◌, ltb, if◌then◌else◌, ◌⊎◌, inl, inr,
}
use cellarkeep_server.Store.Model.{Uuid, Time, User, Invite}
use cellarkeep_server.Store.Action.{
  Runtime, Store, World, Action, Result, ok, err, Error, conflict, forbidden, not_found, no_rows,
  validation, is_err, pure, raise, raise_if, attempt, ◌>>=◌, ◌>>◌, with_tx,
}
use cellarkeep_server.Store.Users.{
  CreateUserParams, create_user, count_users, get_user, get_user_by_email, lock_setup,
  update_user_password, delete_user_sessions,
}
use cellarkeep_server.Store.Invites.{find_valid_invite, claim_invite}
use cellarkeep_server.Auth.Password.{hash_password, password_matches}

-- normEmail
unfoldable pub norm_email : Runtime → String → String
norm_email rt e = rt.to_lower (rt.trim_space e)

-- The parameters of CreateUser, for an account with a role.
abbrev pub account_params : Runtime → String → String → String → String → CreateUserParams
account_params rt role email name hash = record {
  email = norm_email rt email;
  name = name;
  password_hash = hash;
  role = role;
}

-- The function that Setup runs inside its transaction.
unfoldable pub setup_body : Store → String → String → String → Action User
unfolding norm_email
setup_body s email name password = do
  lock_setup s
  n ← count_users s
  raise_if (ltb 0 n) conflict
  hash ← hash_password s password
  create_user s (account_params s.runtime "admin" email name hash)

-- Users.Setup
unfoldable pub setup : Store → String → String → String → Action User
unfolding setup_body
setup s email name password = with_tx s (setup_body s email name password)

-- The hash that Login checks: the decoy's for an unknown address.
abbrev pub hash_of : String → Result User → String
hash_of decoy_hash (err e) = decoy_hash
hash_of decoy_hash (ok u) = u.password_hash

-- The end of Login: one hash check, on every path.
unfoldable pub check_login : Runtime → String → String → Result User → Result User
check_login rt decoy_hash password found =
    let matches = password_matches rt (hash_of decoy_hash found) password in
    if is_err found || not matches then err forbidden else found

-- mustHash: the text of its panic, or the hash; `describe` is the text of an error.
unfoldable pub must_hash : (describe : Error → String) → Store → String → World → String ⊎ String
must_hash describe s pw w = elim (hash_password s pw w).0 [
  | ok h ↦ inr h
  | err e ↦ inl (String.◌++◌ "domain: cannot hash decoy password: " (describe e))
]

-- decoyHash, which is set when the program starts
unfoldable pub decoy : (describe : Error → String) → Store → World → String ⊎ String
unfolding must_hash
decoy describe s w = must_hash describe s "decoy-so-verify-still-runs" w

-- Users.Login; `decoy_hash` is the package variable.
unfoldable pub login : Store → String → String → String → Action User
unfolding check_login norm_email
login s decoy_hash email password w =
    let (found, w') = get_user_by_email s (norm_email s.runtime email) w in
    (check_login s.runtime decoy_hash password found, w')

-- `errors.Is(err, pgx.ErrNoRows)` turned into another error.
abbrev pub rename_no_rows : Error → Error → Error
rename_no_rows e no_rows = e
rename_no_rows e x = x

abbrev pub on_no_rows : {A : Type 0} → Error → Result A → Result A
on_no_rows e (ok a) = ok a
on_no_rows e (err x) = err (rename_no_rows e x)

abbrev pub mapping_no_rows : {A : Type 0} → Error → Action A → Action A
mapping_no_rows e m w = let (r, w') = m w in (on_no_rows e r, w')

-- `inv.Email != nil && *inv.Email != normEmail(email)`
unfoldable pub is_for_other : Option String → String → Bool
is_for_other none email = false
is_for_other (some e) email = not (e == email)

-- The function that Register runs inside its transaction.
unfoldable pub register_body : Store → String → String → String → String → Time → Action User
unfolding norm_email is_for_other
register_body s token email name password now = do
  inv ← mapping_no_rows (validation "token" "invite is not valid") (find_valid_invite s token now)
  raise_if (is_for_other inv.email (norm_email s.runtime email))
      (validation "email" "invite is for a different address")
  hash ← hash_password s password
  out ← create_user s (account_params s.runtime "member" email name hash)
  claim_invite s token now out.id >>= λ _. pure out

-- Users.Register
unfoldable pub register : Store → String → String → String → String → Time → Action User
unfolding register_body
register s token email name password now = with_tx s (register_body s token email name password now)

abbrev pub mapping_errors : {A : Type 0} → Error → Action A → Action A
mapping_errors e m w = let (r, w') = m w in elim r [ ok a ↦ (ok a, w') | err _ ↦ (err e, w') ]

-- Users.ChangePassword; `len` counts bytes.
unfoldable pub change_password : Store → Uuid → String → String → Action (Unit {0})
change_password s user_id current next = do
  user ← mapping_errors not_found (get_user s user_id)
  raise_if (not (password_matches s.runtime user.password_hash current)) forbidden
  raise_if (ltb (String.len next) 10) (validation "password" "must be at least 10 characters")
  hash ← hash_password s next
  with_tx s (update_user_password s user_id hash >> delete_user_sessions s user_id)
