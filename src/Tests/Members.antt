-- ===== src/Tests/Members.antt =====
-- Witnesses for registration by invite.
use cellarkeep_server.Prelude.{false, true, some, none, [], ◌∷◌, find, ◌≡◌, ◌⊎◌, refl, arith}
use cellarkeep_server.Store.Model.{User, Invite}
use cellarkeep_server.Store.Action.{err, is_err, validation, World}
use cellarkeep_server.Store.Triple.{Post, AllOrNothing}
use cellarkeep_server.Store.Invites.{is_valid}
use cellarkeep_server.Auth.Password.{hash_with}
use cellarkeep_server.Domain.Users.{norm_email, is_for_other, register}
use cellarkeep_server.Domain.Users.Register.{IsRegistered, register_outcome}
use cellarkeep_server.Domain.Users.Admission.{register_decides}
use cellarkeep_server.Tests.{runtime1, store1, store1-IsHealthy, world1}

register_outcome_example :
    Post
      (IsRegistered runtime1 "invite" "c@d.org" "Cy" "secret" 5 world1.tables)
      (AllOrNothing world1.tables
        (IsRegistered runtime1 "invite" "c@d.org" "Cy" "secret" 5 world1.tables))
      (register store1 "invite" "c@d.org" "Cy" "secret" 5 world1)
register_outcome_example = register_outcome store1 "invite" "c@d.org" "Cy" "secret" 5 world1 refl

abbrev pub registered : World
registered = (register store1 "invite" "c@d.org" "Cy" "secret" 5 world1).1

-- The member that the registration makes: the insert is the fourth statement after the begin.
abbrev pub member3 : User
member3 = record {
  id = 104;
  email = "c@d.org";
  name = "Cy";
  password_hash = hash_with runtime1 (9 ∷ []) "secret";
  role = "member";
  created_at = 4;
}

register_decides_example :
    ((find (is_valid "invite" 5) world1.tables.invites ≡ none)
      × ((register store1 "invite" "c@d.org" "Cy" "secret" 5 world1).0
          ≡ err (validation "token" "invite is not valid")))
    ⊎ ((inv : Invite) × (find (is_valid "invite" 5) world1.tables.invites ≡ some inv)
        × (((is_for_other inv.email (norm_email runtime1 "c@d.org") ≡ true)
              × ((register store1 "invite" "c@d.org" "Cy" "secret" 5 world1).0
                  ≡ err (validation "email" "invite is for a different address")))
            ⊎ ((is_for_other inv.email (norm_email runtime1 "c@d.org") ≡ false)
                × (is_err (register store1 "invite" "c@d.org" "Cy" "secret" 5 world1).0 ≡ false))))
unfolding norm_email
register_decides_example =
    register_decides store1 "invite" "c@d.org" "Cy" "secret" 5 world1 refl store1-IsHealthy
      (λ t. ground arith)
