-- ===== src/Tests/Accounts.antt =====
-- Witnesses for the first setup, login and sessions.
use cellarkeep_server.Prelude.{string_eq, ◌≡◌, ◌≢◌, ◌↔◌, refl}
use cellarkeep_server.Prelude.Text.{split}
use cellarkeep_server.Store.Action.{ok, World, run, clock, with_tx, draw}
use cellarkeep_server.Store.Users.{
  get_session_with_user, select_session, get_user, update_user_password, delete_user_sessions,
}
use cellarkeep_server.Auth.Password.{
  hash_password, password_matches, verify_password, verify_split, verify_parts, same_key,
}
use cellarkeep_server.Store.Triple.{Post, AllOrNothing}
use cellarkeep_server.Http.{Principal, user}
use cellarkeep_server.Domain.Users.{setup, login, change_password}
use cellarkeep_server.Domain.Users.Setup.{IsFirstAdmin, setup_outcome}
use cellarkeep_server.Domain.Users.Login.{Known, login_iff}
use cellarkeep_server.Domain.Sessions.{principal}
use cellarkeep_server.Domain.Sessions.Lookup.{IsPrincipalOf, principal-IsPrincipalOf}
use cellarkeep_server.Domain.Sessions.SignOut.{
  IsChanged, change_password_outcome, change_password_signs_out,
}
use cellarkeep_server.Tests.{
  runtime1, store1, store1-IsHealthy, empty_world, world1, world2, admin1, no_tables,
}

setup_outcome_example :
    Post
      (IsFirstAdmin runtime1 "a@b.org" "Ada" "secret" no_tables)
      (AllOrNothing no_tables (IsFirstAdmin runtime1 "a@b.org" "Ada" "secret" no_tables))
      (setup store1 "a@b.org" "Ada" "secret" empty_world)
setup_outcome_example = setup_outcome store1 "a@b.org" "Ada" "secret" empty_world refl

login_iff_example :
    ((login store1 "decoy" "ada@example.org" "x" world1).0 ≡ ok admin1)
    ↔ Known store1 "decoy" "ada@example.org" "x" world1 admin1
login_iff_example = login_iff store1 "decoy" "ada@example.org" "x" world1 admin1 store1-IsHealthy

abbrev principal1 : Principal
principal1 = record { kind = user; user_id = 1; role = "admin"; device_id = 0 }

principal-IsPrincipalOf_example : IsPrincipalOf "sid" 1 world1.tables principal1 1000
unfolding principal get_session_with_user run select_session clock
principal-IsPrincipalOf_example = principal-IsPrincipalOf store1 "sid" world1 principal1 1000 refl

change_password_outcome_example :
    Post
      (λ _ db. IsChanged runtime1 1 "x" "a long password" world1.tables db)
      (AllOrNothing {A = Unit {0}} world1.tables
        (λ _ db. IsChanged runtime1 1 "x" "a long password" world1.tables db))
      (change_password store1 1 "x" "a long password" world1)
change_password_outcome_example = change_password_outcome store1 1 "x" "a long password" world1 refl

abbrev changed2 : World
changed2 = (change_password store1 1 "x" "a long password" world2).1

abbrev principal2 : Principal
principal2 = record { kind = user; user_id = 2; role = "member"; device_id = 0 }

change_password_signs_out_example : principal2.user_id ≢ 1
unfolding change_password with_tx draw run get_user update_user_password delete_user_sessions
    password_matches verify_password verify_split verify_parts same_key principal
    get_session_with_user select_session clock hash_password split
change_password_signs_out_example =
    change_password_signs_out store1 1 "x" "a long password" world2 changed2 "sid2" principal2 1000
      refl refl refl refl
