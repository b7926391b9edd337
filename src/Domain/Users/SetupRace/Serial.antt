-- ===== src/Domain/Users/SetupRace/Serial.antt =====
-- However calls of Setup overlap, one administrator is made.
use cellarkeep_server.Prelude.{
  set_at, set_at-all, ℕ, Option, List, [], ◌∷◌, ◌≡◌, ◌≢◌, ◌⊎◌, inl, inr, refl, ◌∙◌, subst,
  Bool-cases, nat_eq, ◌==◌,
}
use cellarkeep_server.Store.Model.{User}
use cellarkeep_server.Domain.Users.SetupRace.{
  SetupPhase, made, refused, SetupRace, SetupWork, SetupAbort, abort_waiting, abort_serialised,
  abort_counted, abort_created, work_setup, abort_setup, SetupReach, fresh, next,
}
use cellarkeep_server.Domain.Users.SetupRace.Phases.{
  Says, IsSerial, SetupWork-Says, SetupWork-made, SetupWork-users, SetupWork-Says-other,
  SetupAbort-Says,
}

SetupAbort-made : (lock lock' : Option ℕ) (p : SetupPhase) → SetupAbort lock p lock' → p ≢ made
SetupAbort-made lock lock' p abort_waiting e = cc
SetupAbort-made lock lock' p abort_serialised e = cc
SetupAbort-made lock lock' p abort_counted e = cc
SetupAbort-made lock lock' p abort_created e = cc

set_at-here : (f : ℕ → SetupPhase) (t : ℕ) (p : SetupPhase) → set_at f t p t ≡ p
set_at-here f t p = rw ((nat_eq.same_iff t t).1 refl) refl

-- Whoever had made a user still has.
still_made :
    (f : ℕ → SetupPhase) (t u : ℕ) (p : SetupPhase)
    → f t ≢ made
    → f u ≡ made
    → set_at f t p u ≡ made
still_made f t u p unmade e = elim (Bool-cases (u == t)) [
  | inl same ↦ elim (unmade (subst (λ v. f v ≡ made) ((nat_eq.same_iff u t).0 same) e)) [ ]
  | inr apart ↦ rw apart e
]

module _ (account : ℕ → User) (s : SetupRace) (k : IsSerial account s) where
  nobody_made : (v : ℕ) → s.users ≡ [] → s.phase v ≢ made
  nobody_made v none' e = let full = subst (Says (account v) v s.users s.lock) e (k.says v) in cc

  work_setup-IsSerial :
      (t : ℕ) (users : List User) (lock : Option ℕ) (p : SetupPhase)
      → SetupWork (account t) t s.users s.lock (s.phase t) users lock p
      → IsSerial account (record { users = users; lock = lock; phase = set_at s.phase t p })
  work_setup-IsSerial t users lock p w =
      let none_before = SetupWork-made (account t) t _ _ _ _ _ _ w (k.says t) in
      record {
        says =
            set_at-all s.phase t p (λ u q. Says (account u) u users lock q)
              (SetupWork-Says (account t) t _ _ _ _ _ _ w (k.says t))
              (λ u apart.
                SetupWork-Says-other (account t) t (account u) u apart _ _ _ _ _ _ _ w (k.says t)
                  (k.says u));
        single =
            set_at-all s.phase t p (λ u q. (v : ℕ) → q ≡ made → set_at s.phase t p v ≡ made → u ≡ v)
              (λ v e.
                set_at-all s.phase t p (λ v q. q ≡ made → t ≡ v) (λ _. refl)
                  (λ v _ e'. elim (nobody_made v (none_before e) e') [ ]) v)
              (λ u _ v e.
                set_at-all s.phase t p (λ v q. q ≡ made → u ≡ v)
                  (λ e'. elim (nobody_made u (none_before e') e) [ ]) (λ v _ e'. k.single u v e e')
                  v);
        made_by = elim (SetupWork-users (account t) t _ _ _ _ _ _ w) [
          | inl e ↦ inr (t, set_at-here s.phase t p ∙ e)
          | inr (same, unmade) ↦ elim k.made_by [
            | inl empty ↦ inl (same ∙ empty)
            | inr (u, e) ↦ inr (u, still_made s.phase t u p unmade e)
          ]
        ];
      }

  abort_setup-IsSerial :
      (t : ℕ) (lock : Option ℕ)
      → SetupAbort s.lock (s.phase t) lock
      → IsSerial account (record { users = s.users; lock = lock; phase = set_at s.phase t refused })
  abort_setup-IsSerial t lock ab = record {
    says =
        set_at-all s.phase t refused (λ u q. Says (account u) u s.users lock q) tt
          (λ u apart.
            SetupAbort-Says (account t) t (account u) u apart s.users s.lock lock (s.phase t)
              (s.phase u) ab (k.says t) (k.says u));
    single =
        set_at-all s.phase t refused
          (λ u q. (v : ℕ) → q ≡ made → set_at s.phase t refused v ≡ made → u ≡ v) (λ v e. cc)
          (λ u _ v e.
            set_at-all s.phase t refused (λ v q. q ≡ made → u ≡ v) (λ e'. cc)
              (λ v _ e'. k.single u v e e') v);
    made_by = elim k.made_by [
      | inl empty ↦ inl empty
      | inr (u, e) ↦
          inr (u, still_made s.phase t u refused (SetupAbort-made s.lock lock (s.phase t) ab) e)
    ];
  }

SetupReach-IsSerial :
    (account : ℕ → User) (s : SetupRace) → SetupReach account s → IsSerial account s
SetupReach-IsSerial account s fresh = record {
  says = λ u. tt;
  single = λ u v e e'. cc;
  made_by = inl refl;
}
SetupReach-IsSerial account s (next {s = s0} r (work_setup t {users} {lock} {p} w)) =
    work_setup-IsSerial account s0 (SetupReach-IsSerial account s0 r) t users lock p w
SetupReach-IsSerial account s (next {s = s0} r (abort_setup t {lock} ab)) =
    abort_setup-IsSerial account s0 (SetupReach-IsSerial account s0 r) t lock ab

-- In every state that overlapping calls of Setup and rollbacks can lead to from an empty database, there
-- is no user and no call has succeeded, or exactly one call has, and its account is the only user.
pub setups_serial :
    (account : ℕ → User) (s : SetupRace)
    → SetupReach account s
    → ((s.users ≡ []) × ((u : ℕ) → s.phase u ≢ made))
      ⊎ ((t : ℕ) × (s.users ≡ account t ∷ [])
          × (s.phase t ≡ made)
          × ((u : ℕ) → s.phase u ≡ made → u ≡ t))
setups_serial account s r =
    let k = SetupReach-IsSerial account s r in
    elim k.made_by [
      | inl empty ↦ inl (empty, λ u. nobody_made account s k u empty)
      | inr (t, e) ↦
          inr (
            t,
            subst (Says (account t) t s.users s.lock) e (k.says t),
            e,
            λ u e'. k.single u t e' e,
          )
    ]
