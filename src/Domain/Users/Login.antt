-- ===== src/Domain/Users/Login.antt =====
-- Users.Login of internal/domain/users.go.
use cellarkeep_server.Prelude.{
  String, true, find, ◌==◌, nat_eq, string_eq, ◌≡◌, ◌↔◌, refl, some, arith, Bool-cases, inl, inr,
  subst,
}
use cellarkeep_server.Store.Model.{User}
use cellarkeep_server.Store.Action.{Store, World, Result, ok, err, forbidden}
use cellarkeep_server.Store.Healthy.{IsHealthy, run_healthy}
use cellarkeep_server.Store.Triple.{Post}
use cellarkeep_server.Store.Users.Laws.{get_user_by_email_lem}
use cellarkeep_server.Store.Users.{get_user_by_email}
use cellarkeep_server.Auth.Password.{password_matches}
use cellarkeep_server.Domain.Users.{norm_email, check_login, login}

module _ (s : Store) (decoy_hash email password : String) (w : World) where
  abbrev pub Known : User → Type 0
  Known u =
      (find (λ (x : User). x.email == norm_email s.runtime email) w.tables.users ≡ some u)
      × (password_matches s.runtime u.password_hash password ≡ true)

  abbrev pub LoggedIn : Result User → Type 0
  LoggedIn (ok u) = Known u
  LoggedIn (err e) = e ≡ forbidden

  login-Post :
      (p : Result User × World)
      → Post
          (λ u db.
            (db ≡ w.tables)
            × (find (λ (x : User). x.email == norm_email s.runtime email) w.tables.users ≡ some u))
          (λ db. db ≡ w.tables)
          p
      → LoggedIn (check_login s.runtime decoy_hash password p.0) × (p.1.tables ≡ w.tables)
  unfolding check_login
  login-Post (ok u, v) h = (
    elim (Bool-cases (password_matches s.runtime u.password_hash password)) [
      | inl same ↦ rw same (h.1, same)
      | inr other ↦ rw other refl
    ],
    h.0,
  )
  login-Post (err e, v) h = (refl, h)

-- Login changes nothing. A user that it returns has the normalised address and a hash that the
-- password matches; every other outcome is the one error, ErrForbidden.
pub login_outcome :
    (s : Store) (decoy_hash email password : String) (w : World)
    → LoggedIn s decoy_hash email password w (login s decoy_hash email password w).0
      × ((login s decoy_hash email password w).1.tables ≡ w.tables)
unfolding login
login_outcome s decoy_hash email password w =
    login-Post s decoy_hash email password w (get_user_by_email s (norm_email s.runtime email) w)
      ((get_user_by_email_lem s (norm_email s.runtime email) w.tables).at w refl)

-- With a database that answers, Login returns exactly the user of the address whose hash the password
-- matches.
pub login_iff :
    (s : Store) (decoy_hash email password : String) (w : World) (u : User)
    → IsHealthy s
    → ((login s decoy_hash email password w).0 ≡ ok u) ↔ Known s decoy_hash email password w u
unfolding login check_login get_user_by_email
login_iff s decoy_hash email password w u h = (
  λ done.
      subst (LoggedIn s decoy_hash email password w) done
        (login_outcome s decoy_hash email password w).0,
  λ known. simp (run_healthy s h) (ground (arith, known.0, known.1)),
)
