-- ===== src/Domain/Users/Race/Allowed.antt =====
-- What a transaction of a registration knows of the row of the invite, and that the others leave it so.
use cellarkeep_server.Prelude.{
  ℕ, String, true, false, Option, some, ◌≡◌, ◌≢◌, ◌⊎◌, inl, inr, refl, subst, nat_eq, arith,
}
use cellarkeep_server.Store.Model.{Invite}
use cellarkeep_server.Store.Invites.{is_valid, claimed}
use cellarkeep_server.Domain.Users.{is_for_other}
use cellarkeep_server.Domain.Users.Race.{
  Caller, Phase, started, found, inserted, holding, committed, failed, Work, look, look_in_vain,
  insert, claim, claim_in_vain, commit,
}
use cellarkeep_server.Domain.Users.Race.Phases.{Tells}

-- What a transaction has tested, and still holds, of the row.
abbrev pub Allowed : String → Caller → Invite → Phase → Type 0
Allowed token c row found = is_for_other row.email c.email ≡ false
Allowed token c row inserted = is_for_other row.email c.email ≡ false
Allowed token c row holding =
    (is_for_other row.email c.email ≡ false) × (is_valid token c.now row ≡ true)
Allowed token c row _ = Unit {0}

module _ (token : String) (c : Caller) (t : ℕ) where
  pub Work-Allowed :
      (row row' : Invite) (lock lock' : Option ℕ) (p p' : Phase)
      → Work token c t row lock p row' lock' p'
      → Allowed token c row p
      → Allowed token c row' p'
  Work-Allowed row row' lock lock' p p' (look v o) h = o
  Work-Allowed row row' lock lock' p p' (look_in_vain _) h = tt
  Work-Allowed row row' lock lock' p p' insert h = h
  Work-Allowed row row' lock lock' p p' (claim v) h = (h, v)
  Work-Allowed row row' lock lock' p p' (claim_in_vain _) h = tt
  Work-Allowed row row' lock lock' p p' commit h = tt

  -- A statement leaves the row alone and commits nothing, or it commits the claim.
  pub Work-effect :
      (row row' : Invite) (lock lock' : Option ℕ) (p p' : Phase)
      → Work token c t row lock p row' lock' p'
      → ((row' ≡ row) × (p' ≢ committed) × (p ≢ committed))
        ⊎ ((row' ≡ claimed c.now c.account row) × (p' ≡ committed) × (p ≡ holding))
  Work-effect row row' lock lock' p p' (look _ _) = inl (refl, λ e. cc, λ e. cc)
  Work-effect row row' lock lock' p p' (look_in_vain _) = inl (refl, λ e. cc, λ e. cc)
  Work-effect row row' lock lock' p p' insert = inl (refl, λ e. cc, λ e. cc)
  Work-effect row row' lock lock' p p' (claim _) = inl (refl, λ e. cc, λ e. cc)
  Work-effect row row' lock lock' p p' (claim_in_vain _) = inl (refl, λ e. cc, λ e. cc)
  Work-effect row row' lock lock' p p' commit = inr (refl, refl, refl)

  -- A row with the address of before, unless a transaction has updated it.
  pub Allowed-row :
      (d : Caller) (row row' : Invite) (q : Phase)
      → row'.email ≡ row.email
      → q ≢ holding
      → Allowed token d row q
      → Allowed token d row' q
  Allowed-row d row row' started e away h = tt
  Allowed-row d row row' found e away h = rw e h
  Allowed-row d row row' inserted e away h = rw e h
  Allowed-row d row row' holding e away h = elim (away refl) [ ]
  Allowed-row d row row' committed e away h = tt
  Allowed-row d row row' failed e away h = tt

  pub Work-Allowed-other :
      (d : Caller) (u : ℕ) (row row' : Invite) (lock lock' : Option ℕ) (p p' q : Phase)
      → u ≢ t
      → Work token c t row lock p row' lock' p'
      → Tells c t row lock p
      → Tells d u row lock q
      → Allowed token d row q
      → Allowed token d row' q
  Work-Allowed-other d u row row' lock lock' p p' q apart (look _ _) h k a = a
  Work-Allowed-other d u row row' lock lock' p p' q apart (look_in_vain _) h k a = a
  Work-Allowed-other d u row row' lock lock' p p' q apart insert h k a = a
  Work-Allowed-other d u row row' lock lock' p p' q apart (claim _) h k a = a
  Work-Allowed-other d u row row' lock lock' p p' q apart (claim_in_vain _) h k a = a
  Work-Allowed-other d u row row' lock lock' p p' q apart commit h k a =
      Allowed-row d row (claimed c.now c.account row) q refl
        (λ e. apart (same_holder u lock h.0 (subst (Tells d u row lock) e k).0)) a
    where
      same_holder : (u : ℕ) (lock : Option ℕ) → lock ≡ some t → lock ≡ some u → u ≡ t
      same_holder u lock mine his = ground arith
