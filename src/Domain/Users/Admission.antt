-- ===== src/Domain/Users/Admission.antt =====
-- Users.Register of internal/domain/users.go on a database that answers.
use cellarkeep_server.Prelude.{
  ℕ, suc, String, true, false, none, some, ◌∷◌, has_row, find, ◌==◌, nat_eq, string_eq, ◌≡◌, ap,
  refl, arith, ◌⊎◌, inl, inr, Option-cases, Bool-cases,
}
use cellarkeep_server.Store.Model.{Time, Uuid, User, Invite, Tables, user_roles}
use cellarkeep_server.Store.Action.{
  Store, World, Result, ok, err, validation, is_err, after, finish, up, resume, pure, ◌>>=◌, one,
}
use cellarkeep_server.Store.Healthy.{IsHealthy, run_healthy, with_tx_healthy, draw_healthy}
use cellarkeep_server.Store.Users.{CreateUserParams, new_user, clashes, insert_user, create_user}
use cellarkeep_server.Store.Invites.{
  is_valid, claimed, find_valid_invite, update_invite, claim_invite,
}
use cellarkeep_server.Auth.Password.{hash_with, hash_password}
use cellarkeep_server.Domain.Users.{
  norm_email, is_for_other, account_params, register_body, register,
}

module _ (s : Store) (h : IsHealthy s) where
  find_valid_invite_healthy :
      (token : String) (now : Time) (w : World)
      → find_valid_invite s token now w
        ≡ (one (find (is_valid token now) w.tables.invites), after w)
  unfolding find_valid_invite
  find_valid_invite_healthy token now w = rw (run_healthy s h) (ground arith)

  hash_password_healthy :
      (pw : String) (w : World)
      → hash_password s pw w ≡ (ok (hash_with s.runtime (h.bytes w.tick 16) pw), after w)
  unfolding hash_password
  hash_password_healthy pw w = simp (draw_healthy s h)

  create_user_healthy :
      (p : CreateUserParams) (w : World)
      → has_row (λ r. r == p.role) user_roles ≡ true
      → has_row (clashes (s.runtime.uuid w.tick) p.email) w.tables.users ≡ false
      → create_user s p w ≡ (
        ok (new_user s.runtime p w.tick),
        record {
          tables = record w.tables { users = new_user s.runtime p w.tick ∷ w.tables.users };
          tick = suc w.tick;
        },
      )
  unfolding create_user insert_user
  create_user_healthy p w role fresh = simp (run_healthy s h) (ground arith)

  claim_invite_healthy :
      (token : String) (now : Time) (id : Uuid) (inv : Invite) (w : World)
      → has_row (λ (u : User). u.id == id) w.tables.users ≡ true
      → find (is_valid token now) w.tables.invites ≡ some inv
      → (claim_invite s token now id w).0 ≡ ok (claimed now id inv)
  unfolding claim_invite update_invite
  claim_invite_healthy token now id inv w there found = simp (run_healthy s h) (ground arith)

committed :
    {A B : Type 0} (t : Tables) (b : B) (p : Result A × World)
    → is_err p.0 ≡ false
    → is_err (finish up t (resume (λ _. pure b) p)).0 ≡ false
committed t b (ok a, w) h = refl
committed t b (err e, w) h = h

module _ (s : Store) (token address called password : String) (now : Time) (w : World)
    (no_tx : s.tx ≡ false) (h : IsHealthy s) where
  register_unknown :
      find (is_valid token now) w.tables.invites ≡ none
      → (register s token address called password now w).0
        ≡ err (validation "token" "invite is not valid")
  unfolding register register_body
  register_unknown e = simp (no_tx, with_tx_healthy s h, find_valid_invite_healthy s h, e) refl

  module _ (inv : Invite) (found : find (is_valid token now) w.tables.invites ≡ some inv) where
    register_for_other :
        is_for_other inv.email (norm_email s.runtime address) ≡ true
        → (register s token address called password now w).0
          ≡ err (validation "email" "invite is for a different address")
    unfolding register register_body
    register_for_other e =
        simp (no_tx, with_tx_healthy s h, find_valid_invite_healthy s h, found, e) refl

    register_succeeds :
        is_for_other inv.email (norm_email s.runtime address) ≡ false
        → ((t : ℕ)
            → has_row (clashes (s.runtime.uuid t) (norm_email s.runtime address)) w.tables.users
              ≡ false)
        → is_err (register s token address called password now w).0 ≡ false
    unfolding register register_body
    register_succeeds e fresh =
        simp
          (
            no_tx,
            with_tx_healthy s h,
            find_valid_invite_healthy s h,
            found,
            e,
            hash_password_healthy s h,
          )
          (rw
            (
              create_user_healthy s h
                  (account_params s.runtime "member" address called
                    (hash_with s.runtime (h.bytes (suc (suc w.tick)) 16) password))
                  (after (after (after w))) refl (fresh (suc (suc (suc w.tick)))),
              ◌>>=◌,
            )
            (committed w.tables _ _
              (ap is_err (claim_invite_healthy s h token now _ inv _ (ground arith) found))))

-- With a database that answers and random bytes, a registration outside a transaction, at an address
-- that no user has and with a new id, is decided by the invite: none that is valid for the token is a
-- validation error, one for another address is another, and any other makes a user.
pub register_decides :
    (s : Store) (token address called password : String) (now : Time) (w : World)
    → s.tx ≡ false
    → IsHealthy s
    → ((t : ℕ)
        → has_row (clashes (s.runtime.uuid t) (norm_email s.runtime address)) w.tables.users
          ≡ false)
    → ((find (is_valid token now) w.tables.invites ≡ none)
        × ((register s token address called password now w).0
            ≡ err (validation "token" "invite is not valid")))
      ⊎ ((inv : Invite) × (find (is_valid token now) w.tables.invites ≡ some inv)
          × (((is_for_other inv.email (norm_email s.runtime address) ≡ true)
                × ((register s token address called password now w).0
                    ≡ err (validation "email" "invite is for a different address")))
              ⊎ ((is_for_other inv.email (norm_email s.runtime address) ≡ false)
                  × (is_err (register s token address called password now w).0 ≡ false))))
register_decides s token address called password now w no_tx h fresh =
    elim (Option-cases (find (is_valid token now) w.tables.invites)) [
      | inl missing ↦
          inl (missing, register_unknown s token address called password now w no_tx h missing)
      | inr (inv, found) ↦ inr (
        inv,
        found,
        elim (Bool-cases (is_for_other inv.email (norm_email s.runtime address))) [
          | inl other ↦ inl (
            other,
            register_for_other s token address called password now w no_tx h inv found other,
          )
          | inr meant ↦ inr (
            meant,
            register_succeeds s token address called password now w no_tx h inv found meant fresh,
          )
        ],
      )
    ]
