-- ===== src/Domain/Users/Race/Phases.antt =====
-- What the phases of overlapping registrations say of the row, and that every statement keeps it.
use cellarkeep_server.Prelude.{
  ℕ, String, true, false, Option, none, some, ◌≡◌, ◌≢◌, refl, subst, nat_eq, arith,
}
use cellarkeep_server.Store.Model.{Time, Invite}
use cellarkeep_server.Store.Invites.{is_open, claimed, revoked}
use cellarkeep_server.Domain.Users.Race.{
  Caller, Phase, started, found, inserted, holding, committed, failed, Race, Work, look,
  look_in_vain, insert, claim, claim_in_vain, commit, Abort, abort_started, abort_found,
  abort_inserted, abort_holding,
}

-- What a phase says of the row: the holder has it alone and it is unused; whoever has committed is its user.
abbrev pub Tells : Caller → ℕ → Invite → Option ℕ → Phase → Type 0
Tells c u row lock holding = (lock ≡ some u) × (is_open row ≡ true)
Tells c u row lock committed = (is_open row ≡ false) × (row.used_by ≡ some c.account)
Tells c u row lock _ = Unit {0}

pub record IsSound (callers : ℕ → Caller) (s : Race) : Type 0 where
  pub told : (u : ℕ) → Tells (callers u) u s.row s.lock (s.phase u)
  pub held : (u : ℕ) → s.lock ≡ some u → s.phase u ≡ holding
  pub single : (u v : ℕ) → s.phase u ≡ committed → s.phase v ≡ committed → u ≡ v

module _ (token : String) (c : Caller) (t : ℕ) where
  pub Work-Tells :
      (row row' : Invite) (lock lock' : Option ℕ) (p p' : Phase)
      → Work token c t row lock p row' lock' p'
      → Tells c t row lock p
      → Tells c t row' lock' p'
  Work-Tells row row' lock lock' p p' (look _ _) h = tt
  Work-Tells row row' lock lock' p p' (look_in_vain _) h = tt
  Work-Tells row row' lock lock' p p' insert h = tt
  Work-Tells row row' lock lock' p p' (claim v) h = (refl, ground arith)
  Work-Tells row row' lock lock' p p' (claim_in_vain _) h = tt
  Work-Tells row row' lock lock' p p' commit h = (refl, refl)

  pub Work-held :
      (row row' : Invite) (lock lock' : Option ℕ) (p p' : Phase)
      → Work token c t row lock p row' lock' p'
      → (lock ≡ some t → p ≡ holding)
      → lock' ≡ some t
      → p' ≡ holding
  Work-held row row' lock lock' p p' (look _ _) h l = let no = h l in cc
  Work-held row row' lock lock' p p' (look_in_vain _) h l = let no = h l in cc
  Work-held row row' lock lock' p p' insert h l = let no = h l in cc
  Work-held row row' lock lock' p p' (claim v) h l = refl
  Work-held row row' lock lock' p p' (claim_in_vain _) h l = cc
  Work-held row row' lock lock' p p' commit h l = cc

  pub Work-committed :
      (row row' : Invite) (lock lock' : Option ℕ) (p p' : Phase)
      → Work token c t row lock p row' lock' p'
      → p' ≡ committed
      → p ≡ holding
  Work-committed row row' lock lock' p p' (look _ _) e = cc
  Work-committed row row' lock lock' p p' (look_in_vain _) e = cc
  Work-committed row row' lock lock' p p' insert e = cc
  Work-committed row row' lock lock' p p' (claim v) e = cc
  Work-committed row row' lock lock' p p' (claim_in_vain _) e = cc
  Work-committed row row' lock lock' p p' commit e = refl

  pub Work-lock :
      (u : ℕ) (row row' : Invite) (lock lock' : Option ℕ) (p p' : Phase)
      → u ≢ t
      → Work token c t row lock p row' lock' p'
      → lock' ≡ some u
      → lock ≡ some u
  Work-lock u row row' lock lock' p p' apart (look _ _) l = l
  Work-lock u row row' lock lock' p p' apart (look_in_vain _) l = l
  Work-lock u row row' lock lock' p p' apart insert l = l
  Work-lock u row row' lock lock' p p' apart (claim v) l = elim (apart (ground arith)) [ ]
  Work-lock u row row' lock lock' p p' apart (claim_in_vain _) l = l
  Work-lock u row row' lock lock' p p' apart commit l = cc

  -- The other transactions.
  module _ (d : Caller) (u : ℕ) (apart : u ≢ t) where
    other-claim : (row : Invite) (q : Phase) → Tells d u row none q → Tells d u row (some t) q
    other-claim row holding h = cc
    other-claim row committed h = h
    other-claim row started h = tt
    other-claim row found h = tt
    other-claim row inserted h = tt
    other-claim row failed h = tt

    other-release :
        (row row' : Invite) (lock : Option ℕ) (q : Phase)
        → (lock ≡ some t) × (is_open row ≡ true)
        → (q ≡ committed → row' ≡ row)
        → Tells d u row lock q
        → Tells d u row' none q
    other-release row row' lock holding (l, o) same h = elim (apart (ground arith)) [ ]
    other-release row row' lock committed (l, o) same h = rw (same refl) h
    other-release row row' lock started l same h = tt
    other-release row row' lock found l same h = tt
    other-release row row' lock inserted l same h = tt
    other-release row row' lock failed l same h = tt

    Tells-shut :
        (row : Invite) (lock : Option ℕ) (q : Phase)
        → q ≡ committed
        → Tells d u row lock q
        → is_open row ≡ false
    Tells-shut row lock q e h = (subst (Tells d u row lock) e h).0

    pub Work-Tells-other :
        (row row' : Invite) (lock lock' : Option ℕ) (p p' q : Phase)
        → Work token c t row lock p row' lock' p'
        → Tells c t row lock p
        → Tells d u row lock q
        → Tells d u row' lock' q
    Work-Tells-other row row' lock lock' p p' q (look _ _) h k = k
    Work-Tells-other row row' lock lock' p p' q (look_in_vain _) h k = k
    Work-Tells-other row row' lock lock' p p' q insert h k = k
    Work-Tells-other row row' lock lock' p p' q (claim v) h k = other-claim row q k
    Work-Tells-other row row' lock lock' p p' q (claim_in_vain _) h k = k
    Work-Tells-other row row' lock lock' p p' q commit h k =
        other-release row (claimed c.now c.account row) lock q h
          (λ e. let shut = Tells-shut row lock q e k in let open' = h.1 in cc) k

    pub Abort-Tells :
        (row : Invite) (lock lock' : Option ℕ) (p q : Phase)
        → Abort lock p lock'
        → Tells c t row lock p
        → Tells d u row lock q
        → Tells d u row lock' q
    Abort-Tells row lock lock' p q abort_started h k = k
    Abort-Tells row lock lock' p q abort_found h k = k
    Abort-Tells row lock lock' p q abort_inserted h k = k
    Abort-Tells row lock lock' p q abort_holding h k = other-release row row lock q h (λ e. refl) k

pub Abort-own :
    (t : ℕ) (lock lock' : Option ℕ) (p : Phase)
    → Abort lock p lock'
    → (lock ≡ some t → p ≡ holding)
    → lock' ≡ some t
    → ⊥
Abort-own t lock lock' p abort_started h l = let no = h l in cc
Abort-own t lock lock' p abort_found h l = let no = h l in cc
Abort-own t lock lock' p abort_inserted h l = let no = h l in cc
Abort-own t lock lock' p abort_holding h l = cc

pub Abort-lock :
    (u : ℕ) (lock lock' : Option ℕ) (p : Phase)
    → Abort lock p lock'
    → lock' ≡ some u
    → lock ≡ some u
Abort-lock u lock lock' p abort_started l = l
Abort-lock u lock lock' p abort_found l = l
Abort-lock u lock lock' p abort_inserted l = l
Abort-lock u lock lock' p abort_holding l = cc

pub Tells-revoked :
    (c : Caller) (u : ℕ) (row : Invite) (now : Time) (lock : Option ℕ) (q : Phase)
    → lock ≡ none
    → is_open row ≡ true
    → Tells c u row lock q
    → Tells c u (revoked now row) lock q
Tells-revoked c u row now lock holding free open' h = cc
Tells-revoked c u row now lock committed free open' h = cc
Tells-revoked c u row now lock started free open' h = tt
Tells-revoked c u row now lock found free open' h = tt
Tells-revoked c u row now lock inserted free open' h = tt
Tells-revoked c u row now lock failed free open' h = tt
