-- ===== src/Domain/Users/Race/Invariant.antt =====
-- One invite admits one account, however the calls overlap.
use cellarkeep_server.Prelude.{
  set_at, set_at-all, ℕ, String, true, Option, none, some, ◌≡◌, refl, subst, nat_eq,
}
use cellarkeep_server.Store.Model.{Time, Invite}
use cellarkeep_server.Store.Invites.{is_open, revoked}
use cellarkeep_server.Domain.Users.Race.{
  Caller, Phase, holding, committed, failed, Race, Work, Abort, Step, work, abort, revoke, Reach,
  first, later,
}
use cellarkeep_server.Domain.Users.Race.Phases.{
  Tells, IsSound, Work-Tells, Work-held, Work-committed, Work-lock, Work-Tells-other, Abort-Tells,
  Abort-own, Abort-lock, Tells-revoked,
}

module _ (token : String) (callers : ℕ → Caller) (s : Race) (k : IsSound callers s) where
  -- Whoever commits is the first to do so.
  alone :
      (t : ℕ) (row : Invite) (lock : Option ℕ) (p : Phase)
      → Work token (callers t) t s.row s.lock (s.phase t) row lock p
      → p ≡ committed
      → (v : ℕ) → s.phase v ≡ committed
      → ⊥
  alone t row lock p w e v e' =
      let h = Work-committed token (callers t) t _ _ _ _ _ _ w e in
      let unused = (subst (Tells (callers t) t s.row s.lock) h (k.told t)).1 in
      let used = (subst (Tells (callers v) v s.row s.lock) e' (k.told v)).0 in cc

  Work-IsSound :
      (t : ℕ) (row : Invite) (lock : Option ℕ) (p : Phase)
      → Work token (callers t) t s.row s.lock (s.phase t) row lock p
      → IsSound callers (record { row = row; lock = lock; phase = set_at s.phase t p })
  Work-IsSound t row lock p w = record {
    told =
        set_at-all s.phase t p (λ u q. Tells (callers u) u row lock q)
          (Work-Tells token (callers t) t _ _ _ _ _ _ w (k.told t))
          (λ u apart.
            Work-Tells-other token (callers t) t (callers u) u apart _ _ _ _ _ _ _ w (k.told t)
              (k.told u));
    held =
        set_at-all s.phase t p (λ u q. lock ≡ some u → q ≡ holding)
          (Work-held token (callers t) t _ _ _ _ _ _ w (k.held t))
          (λ u apart l. k.held u (Work-lock token (callers t) t u _ _ _ _ _ _ apart w l));
    single =
        set_at-all s.phase t p
          (λ u q. (v : ℕ) → q ≡ committed → set_at s.phase t p v ≡ committed → u ≡ v)
          (λ v e.
            set_at-all s.phase t p (λ v q. q ≡ committed → t ≡ v) (λ _. refl)
              (λ v _ e'. elim (alone t row lock p w e v e') [ ]) v)
          (λ u _ v e.
            set_at-all s.phase t p (λ v q. q ≡ committed → u ≡ v)
              (λ e'. elim (alone t row lock p w e' u e) [ ]) (λ v _ e'. k.single u v e e') v);
  }

  Abort-IsSound :
      (t : ℕ) (lock : Option ℕ)
      → Abort s.lock (s.phase t) lock
      → IsSound callers (record { row = s.row; lock = lock; phase = set_at s.phase t failed })
  Abort-IsSound t lock a = record {
    told =
        set_at-all s.phase t failed (λ u q. Tells (callers u) u s.row lock q) tt
          (λ u apart.
            Abort-Tells token (callers t) t (callers u) u apart s.row s.lock lock (s.phase t)
              (s.phase u) a (k.told t) (k.told u));
    held =
        set_at-all s.phase t failed (λ u q. lock ≡ some u → q ≡ holding)
          (λ l. elim (Abort-own t _ _ _ a (k.held t) l) [ ])
          (λ u apart l. k.held u (Abort-lock u _ _ _ a l));
    single =
        set_at-all s.phase t failed
          (λ u q. (v : ℕ) → q ≡ committed → set_at s.phase t failed v ≡ committed → u ≡ v)
          (λ v e. cc)
          (λ u _ v e.
            set_at-all s.phase t failed (λ v q. q ≡ committed → u ≡ v) (λ e'. cc)
              (λ v _ e'. k.single u v e e') v);
  }

  revoke-IsSound :
      (now : Time)
      → s.lock ≡ none
      → is_open s.row ≡ true
      → IsSound callers (record s { row = revoked now s.row })
  revoke-IsSound now free open' = record {
    told = λ u. Tells-revoked (callers u) u s.row now s.lock (s.phase u) free open' (k.told u);
    held = k.held;
    single = k.single;
  }

Step-IsSound :
    (token : String) (callers : ℕ → Caller) (s s' : Race)
    → Step token callers s s'
    → IsSound callers s
    → IsSound callers s'
Step-IsSound token callers s s' (work t {row} {lock} {p} w) k =
    Work-IsSound token callers s k t row lock p w
Step-IsSound token callers s s' (abort t {lock} a) k = Abort-IsSound token callers s k t lock a
Step-IsSound token callers s s' (revoke now free open') k =
    revoke-IsSound token callers s k now free open'

pub Reach-IsSound :
    (token : String) (callers : ℕ → Caller) (row : Invite) (s : Race)
    → Reach token callers row s
    → IsSound callers s
Reach-IsSound token callers row s first = record {
  told = λ u. tt;
  held = λ u l. cc;
  single = λ u v e e'. cc;
}
Reach-IsSound token callers row s (later {s = s0} r st) =
    Step-IsSound token callers s0 s st (Reach-IsSound token callers row s0 r)

-- In every state that overlapping registrations by one token, rollbacks and revocations can lead to, at
-- most one of the registrations has committed, and the invite is used by its account.
pub one_commits :
    (token : String) (callers : ℕ → Caller) (row : Invite) (s : Race) (t : ℕ)
    → Reach token callers row s
    → s.phase t ≡ committed
    → (s.row.used_by ≡ some (callers t).account) × ((u : ℕ) → s.phase u ≡ committed → u ≡ t)
one_commits token callers row s t r e =
    let k = Reach-IsSound token callers row s r in
    ((subst (Tells (callers t) t s.row s.lock) e (k.told t)).1, λ u e'. k.single u t e' e)
