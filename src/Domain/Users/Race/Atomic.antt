-- ===== src/Domain/Users/Race/Atomic.antt =====
-- Overlapping registrations do what registrations one after the other do.
use cellarkeep_server.Prelude.{
  set_at, set_at-all, ℕ, String, true, false, Option, none, List, [], ◌∷◌, has_row, ◌≡◌, ◌≢◌, ◌↔◌,
  inl, inr, refl, sym, subst, nat_eq, ◌==◌, arith,
}
use cellarkeep_server.Store.Model.{Time, Invite}
use cellarkeep_server.Store.Invites.{is_valid, is_open, claimed, revoked}
use cellarkeep_server.Domain.Users.{is_for_other}
use cellarkeep_server.Domain.Users.Race.{
  Caller, Phase, committed, failed, Race, Work, Abort, abort_started, abort_found, abort_inserted,
  abort_holding, work, abort, revoke, Reach, first, later,
}
use cellarkeep_server.Domain.Users.Race.Phases.{Tells, IsSound}
use cellarkeep_server.Domain.Users.Race.Invariant.{Reach-IsSound}
use cellarkeep_server.Domain.Users.Race.Allowed.{
  Allowed, Work-Allowed, Work-effect, Allowed-row, Work-Allowed-other,
}

-- The specification: from a row, whole registrations and revocations one after the other. The list names
-- the callers that were admitted, the last one first.
pub data Atomic (token : String) (callers : ℕ → Caller) (row : Invite)
    : Invite → List ℕ → Type 0 where
  untouched : Atomic token callers row row []
  admit :
      (t : ℕ) {now : Invite} {ts : List ℕ}
      → Atomic token callers row now ts
      → is_valid token (callers t).now now ≡ true
      → is_for_other now.email (callers t).email ≡ false
      → Atomic token callers row (claimed (callers t).now (callers t).account now) (t ∷ ts)
  withdraw :
      (at : Time) {now : Invite} {ts : List ℕ}
      → Atomic token callers row now ts
      → is_open now ≡ true
      → Atomic token callers row (revoked at now) ts

-- The committed transactions are those of a list.
abbrev AreCommitted : (ℕ → Phase) → List ℕ → Type 0
AreCommitted f ts = (u : ℕ) → (f u ≡ committed) ↔ (has_row (λ t. t == u) ts ≡ true)

AreCommitted-other :
    (f : ℕ → Phase) (t : ℕ) (p : Phase) (ts : List ℕ)
    → p ≢ committed
    → f t ≢ committed
    → AreCommitted f ts
    → AreCommitted (set_at f t p) ts
AreCommitted-other f t p ts after before a =
    set_at-all f t p (λ u q. (q ≡ committed) ↔ (has_row (λ t. t == u) ts ≡ true))
      (λ e. elim (after e) [ ], λ h. elim (before ((a t).1 h)) [ ]) (λ u apart. a u)

other_index : (t u : ℕ) → u ≢ t → t == u ≡ false
other_index t u apart = ground arith

AreCommitted-admit :
    (f : ℕ → Phase) (t : ℕ) (ts : List ℕ)
    → AreCommitted f ts
    → AreCommitted (set_at f t committed) (t ∷ ts)
AreCommitted-admit f t ts a =
    set_at-all f t committed (λ u q. (q ≡ committed) ↔ (has_row (λ t. t == u) (t ∷ ts) ≡ true))
      (λ e. rw ((nat_eq.same_iff t t).1 refl) refl, λ h. refl)
      (λ u apart. rw (other_index t u apart) (a u))

Abort-not_committed : (lock lock' : Option ℕ) (p : Phase) → Abort lock p lock' → p ≢ committed
Abort-not_committed lock lock' p abort_started e = cc
Abort-not_committed lock lock' p abort_found e = cc
Abort-not_committed lock lock' p abort_inserted e = cc
Abort-not_committed lock lock' p abort_holding e = cc

module _ (token : String) (callers : ℕ → Caller) (row : Invite) where
  -- A state that whole registrations, one after the other, lead to as well.
  pub record IsAtomic (s : Race) : Type 0 where
    pub admitted : List ℕ
    pub run : Atomic token callers row s.row admitted
    pub committed_are : (u : ℕ) → (s.phase u ≡ committed) ↔ (has_row (λ t. t == u) admitted ≡ true)
    pub allowed : (u : ℕ) → Allowed token (callers u) s.row (s.phase u)

  Work-IsAtomic :
      (s : Race) (t : ℕ) (row' : Invite) (lock : Option ℕ) (p : Phase)
      → IsSound callers s
      → IsAtomic s
      → Work token (callers t) t s.row s.lock (s.phase t) row' lock p
      → IsAtomic (record { row = row'; lock = lock; phase = set_at s.phase t p })
  Work-IsAtomic s t row' lock p k a w =
      let allowed' =
        set_at-all s.phase t p (λ u q. Allowed token (callers u) row' q)
          (Work-Allowed token (callers t) t _ _ _ _ _ _ w (a.allowed t))
          (λ u apart.
            Work-Allowed-other token (callers t) t (callers u) u _ _ _ _ _ _ _ apart w (k.told t)
              (k.told u) (a.allowed u)) in
      elim (Work-effect token (callers t) t _ _ _ _ _ _ w) [
        | inl (same, after, before) ↦ record {
          admitted = a.admitted;
          run = subst (λ r. Atomic token callers row r a.admitted) (sym same) a.run;
          committed_are = AreCommitted-other s.phase t p a.admitted after before a.committed_are;
          allowed = allowed';
        }
        | inr (changed, after, before) ↦
            let (address, valid) = subst (Allowed token (callers t) s.row) before (a.allowed t) in
            record {
              admitted = t ∷ a.admitted;
              run =
                  subst (λ r. Atomic token callers row r (t ∷ a.admitted)) (sym changed)
                    (admit t a.run valid address);
              committed_are =
                  subst (λ q. AreCommitted (set_at s.phase t q) (t ∷ a.admitted)) (sym after)
                    (AreCommitted-admit s.phase t a.admitted a.committed_are);
              allowed = allowed';
            }
      ]

  Abort-IsAtomic :
      (s : Race) (t : ℕ) (lock : Option ℕ)
      → IsAtomic s
      → Abort s.lock (s.phase t) lock
      → IsAtomic (record { row = s.row; lock = lock; phase = set_at s.phase t failed })
  Abort-IsAtomic s t lock a ab = record {
    admitted = a.admitted;
    run = a.run;
    committed_are =
        AreCommitted-other s.phase t failed a.admitted (λ e. cc)
          (Abort-not_committed s.lock lock (s.phase t) ab) a.committed_are;
    allowed =
        set_at-all s.phase t failed (λ u q. Allowed token (callers u) s.row q) tt
          (λ u apart. a.allowed u);
  }

  revoke-IsAtomic :
      (s : Race) (now : Time)
      → IsSound callers s
      → IsAtomic s
      → s.lock ≡ none
      → is_open s.row ≡ true
      → IsAtomic (record s { row = revoked now s.row })
  revoke-IsAtomic s now k a free open' = record {
    admitted = a.admitted;
    run = withdraw now a.run open';
    committed_are = a.committed_are;
    allowed = λ u.
        Allowed-row token (callers u) u (callers u) s.row (revoked now s.row) (s.phase u) refl
          (λ e. let held = (subst (Tells (callers u) u s.row s.lock) e (k.told u)).0 in cc)
          (a.allowed u);
  }

  -- Overlapping registrations refine registrations one after the other: every state that they, rollbacks
  -- and revocations lead to has a row that whole registrations, each valid and for the right address at its
  -- time, and revocations of the open invite lead to one after the other; and the registrations that have
  -- committed are those.
  pub Reach-IsAtomic : (s : Race) → Reach token callers row s → IsAtomic s
  Reach-IsAtomic s first = record {
    admitted = [];
    run = untouched;
    committed_are = λ u. (λ e. cc, λ e. cc);
    allowed = λ u. tt;
  }
  Reach-IsAtomic s (later {s = s0} r (work t {row = row'} {lock} {p} w)) =
      Work-IsAtomic s0 t row' lock p (Reach-IsSound token callers row s0 r) (Reach-IsAtomic s0 r) w
  Reach-IsAtomic s (later {s = s0} r (abort t {lock} ab)) =
      Abort-IsAtomic s0 t lock (Reach-IsAtomic s0 r) ab
  Reach-IsAtomic s (later {s = s0} r (revoke now free open')) =
      revoke-IsAtomic s0 now (Reach-IsSound token callers row s0 r) (Reach-IsAtomic s0 r) free open'
