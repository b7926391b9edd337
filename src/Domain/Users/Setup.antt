-- ===== src/Domain/Users/Setup.antt =====
-- Users.Setup of internal/domain/users.go: what it creates, and what it leaves alone.
use cellarkeep_server.Prelude.{
  ◌<◌, ℕ, String, false, List, [], ◌∷◌, length, ◌≡◌, ◌⊎◌, inl, inr, refl, arith, ltb, ◌∙◌, ap, sym,
}
use cellarkeep_server.Store.Model.{User, Tables}
use cellarkeep_server.Store.Action.{Runtime, Store, World, conflict, err, is_err}
use cellarkeep_server.Store.Triple.{
  Post, Triple, Anything, AllOrNothing, Triple-bind, Triple-given, Triple-Anything, Triple-pure,
  Triple-raise_if, Triple-draw, Triple-weaken, Triple-atomic,
}
use cellarkeep_server.Store.Healthy.{IsHealthy, run_healthy, with_tx_healthy, draw_healthy}
use cellarkeep_server.Store.Users.{insert_user, create_user, count_users, lock_setup}
use cellarkeep_server.Store.Users.Laws.{
  IsInserted, create_user_lem, count_users_lem, lock_setup_lem,
}
use cellarkeep_server.Auth.Password.{hash_with, hash_password}
use cellarkeep_server.Domain.Users.{norm_email, setup_body, setup, account_params}

-- The hash is one of the password, by some salt.
abbrev pub IsHashOf : Runtime → String → String → Type 0
IsHashOf rt password hash = (salt : List ℕ) × (hash ≡ hash_with rt salt password)

pub hash_password_lem :
    (s : Store) (password : String) (before : Tables)
    → Triple
        (λ db. db ≡ before)
        (hash_password s password)
        (λ hash db. (db ≡ before) × IsHashOf s.runtime password hash)
        (λ db. db ≡ before)
unfolding hash_password
hash_password_lem s password before =
    Triple-bind (λ salt db. db ≡ before) (Triple-draw s 16 (λ db p. p))
      (λ salt. Triple-pure (hash_with s.runtime salt password) (λ db p. (p, (salt, refl))))

-- The first account: the only user, an admin, with the normalised address and a hash of the password.
pub record IsFirstAdmin (rt : Runtime) (address called password : String) (before : Tables)
    (u : User) (db : Tables) : Type 0 where
  pub was_empty : before.users ≡ []
  pub tables : db ≡ record before { users = u ∷ [] }
  pub role : u.role ≡ "admin"
  pub email : u.email ≡ norm_email rt address
  pub name : u.name ≡ called
  pub hashed : IsHashOf rt password u.password_hash

empty_of_length : {A : Type 0} (xs : List A) → ltb 0 (length xs) ≡ false → xs ≡ []
empty_of_length [] h = refl
empty_of_length (x ∷ xs) h = ground arith

list_cases : {A : Type 0} (xs : List A) → (xs ≡ []) ⊎ (0 < length xs)
list_cases [] = inl refl
list_cases (x ∷ xs) = inr (omega arith)

module _ (s : Store) (email name password : String) (before : Tables) where
  inserted_first :
      (hash : String)
      → before.users ≡ []
      → IsHashOf s.runtime password hash
      → (u : User) (db : Tables)
      → IsInserted s.runtime (account_params s.runtime "admin" email name hash) before u db
      → IsFirstAdmin s.runtime email name password before u db
  inserted_first hash empty hashed u db i = record {
    was_empty = empty;
    tables = ground (arith, i.tables);
    role = ground (arith, i.row);
    email = ground (arith, i.row);
    name = ground (arith, i.row);
    hashed = (hashed.0, ground (arith, i.row, hashed.1));
  }

  setup_body_lem :
      Triple
        (λ db. db ≡ before)
        (setup_body s email name password)
        (IsFirstAdmin s.runtime email name password before)
        Anything
  unfolding setup_body
  setup_body_lem =
      Triple-bind (λ _ db. db ≡ before) (Triple-Anything (lock_setup_lem s before))
        λ _.
          Triple-bind (λ n db. (db ≡ before) × (n ≡ length before.users))
            (Triple-Anything (count_users_lem s before))
            λ n. Triple-given λ counted.
              Triple-bind (λ _ db. (db ≡ before) × (before.users ≡ []))
                (Triple-raise_if (ltb 0 n) conflict
                  (λ db none_yet p.
                    (p, empty_of_length before.users (ap (ltb 0) (sym counted) ∙ none_yet)))
                  (λ db p. tt))
                λ _. Triple-given λ empty.
                  Triple-bind (λ hash db. (db ≡ before) × IsHashOf s.runtime password hash)
                    (Triple-Anything (hash_password_lem s password before))
                    λ hash. Triple-given λ hashed.
                      Triple-weaken
                        (create_user_lem s (account_params s.runtime "admin" email name hash)
                          before)
                        (inserted_first hash empty hashed) (λ db e. tt)

-- Whatever fails, Setup outside a transaction creates the first admin and changes nothing else, or
-- changes nothing; an error with the admin created is a commit whose acknowledgement was lost.
pub setup_outcome :
    (s : Store) (email name password : String) (w : World)
    → s.tx ≡ false
    → Post
        (IsFirstAdmin s.runtime email name password w.tables)
        (AllOrNothing w.tables (IsFirstAdmin s.runtime email name password w.tables))
        (setup s email name password w)
unfolding setup
setup_outcome s email name password w no_tx =
    (Triple-atomic s (setup_body s email name password) w.tables
        (IsFirstAdmin s.runtime email name password w.tables) no_tx
        (setup_body_lem s email name password w.tables)).at
      w refl

-- With a database that answers and random bytes, Setup outside a transaction ends in a user when there
-- is none, and in a conflict when there is one.
pub setup_decides :
    (s : Store) (email name password : String) (w : World)
    → s.tx ≡ false
    → IsHealthy s
    → ((w.tables.users ≡ []) × (is_err (setup s email name password w).0 ≡ false))
      ⊎ ((0 < length w.tables.users) × ((setup s email name password w).0 ≡ err conflict))
unfolding setup setup_body lock_setup count_users create_user insert_user hash_password
setup_decides s email name password w no_tx h = elim (list_cases w.tables.users) [
  | inl empty ↦
      inl (empty, simp (no_tx, with_tx_healthy s h, run_healthy s h, draw_healthy s h, empty) refl)
  | inr some_user ↦
      inr (some_user, simp (no_tx, with_tx_healthy s h, run_healthy s h) (ground arith))
]
