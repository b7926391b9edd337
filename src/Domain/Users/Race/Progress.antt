-- ===== src/Domain/Users/Race/Progress.antt =====
-- Overlapping registrations do not block each other for ever.
use cellarkeep_server.Prelude.{
  ℕ, zero, suc, Bool, true, false, String, Option, none, some, ◌≡◌, ◌≢◌, ◌⊎◌, inl, inr, ◌<◌, ◌≤◌,
  Bool-cases, Option-cases, nat_eq, string_eq, ◌==◌, refl, subst, ltb, arith,
}
use cellarkeep_server.Store.Model.{Invite}
use cellarkeep_server.Store.Invites.{is_valid}
use cellarkeep_server.Domain.Users.{is_for_other}
use cellarkeep_server.Domain.Users.Race.{
  Caller, Phase, started, found, inserted, holding, committed, failed, Race, Work, look,
  look_in_vain, insert, claim, claim_in_vain, commit, Reach,
}
use cellarkeep_server.Domain.Users.Race.Invariant.{Reach-IsSound}

-- How many statements a transaction has left.
abbrev pub left : Phase → ℕ
left started = 4
left found = 3
left inserted = 2
left holding = 1
left committed = 0
left failed = 0

-- Whether a transaction has inserted its account and has not rolled back.
abbrev pub has_account : Phase → Bool
has_account started = false
has_account found = false
has_account inserted = true
has_account holding = true
has_account committed = true
has_account failed = false

module _ (token : String) (callers : ℕ → Caller) (s : Race) where
  -- Another caller has inserted an account with the address of `t`.
  abbrev pub IsTaken : ℕ → ℕ → Type 0
  IsTaken t u = (u ≢ t) × ((callers u).email ≡ (callers t).email) × (has_account (s.phase u) ≡ true)

  -- A caller gets on: it runs its next statement, which leaves it fewer, and which, if it is the insert, has
  -- no other transaction with the same address to wait for; or its insert fails at once, because another
  -- caller has committed the address.
  pub data Goes (t : ℕ) : Type 0 where
    runs :
        {row : Invite} {lock : Option ℕ} {p : Phase}
        → Work token (callers t) t s.row s.lock (s.phase t) row lock p
        → left p < left (s.phase t)
        → (s.phase t ≡ found → (u : ℕ) → IsTaken t u → ⊥)
        → Goes t
    duplicate : (u : ℕ) → s.phase t ≡ found → IsTaken t u → s.phase u ≡ committed → Goes t

module _ (token : String) (c : Caller) (t : ℕ) (row : Invite) where
  abbrev Next : Option ℕ → Phase → Type 0
  Next lock q =
      (row' : Invite) × (lock' : Option ℕ) × (p : Phase) × Work token c t row lock q row' lock' p
      × (left p < left q)

  started-Next : (lock : Option ℕ) → Next lock started
  started-Next lock = elim (Bool-cases (is_valid token c.now row)) [
    | inr v ↦ (row, lock, failed, look_in_vain (inl v), omega arith)
    | inl v ↦ elim (Bool-cases (is_for_other row.email c.email)) [
      | inl o ↦ (row, lock, failed, look_in_vain (inr o), omega arith)
      | inr o ↦ (row, lock, found, look v o, omega arith)
    ]
  ]

  free-Next : (q : Phase) → 0 < left q → Next none q
  free-Next started h = started-Next none
  free-Next found h = (row, none, inserted, insert, omega arith)
  free-Next inserted h = elim (Bool-cases (is_valid token c.now row)) [
    | inr v ↦ (row, none, failed, claim_in_vain v, omega arith)
    | inl v ↦ (row, some t, holding, claim v, omega arith)
  ]
  free-Next holding h = (_, none, committed, commit, omega arith)
  free-Next committed h = ground arith
  free-Next failed h = ground arith

-- Some number below n has the property, or none has.
search_below :
    (P : ℕ → Type 0) (decide : (u : ℕ) → P u ⊎ (P u → ⊥)) (n : ℕ)
    → ((u : ℕ) × P u) ⊎ ((u : ℕ) → u < n → P u → ⊥)
search_below P decide zero = inr (λ u h. ground arith)
search_below P decide (suc n) = elim (decide n) [
  | inl k ↦ inl (n, k)
  | inr none_here ↦ elim (search_below P decide n) [
    | inl some_lower ↦ inl some_lower
    | inr no_lower ↦ inr (λ u h k. elim (Bool-cases (u == n)) [
      | inl same ↦ none_here (subst P ((nat_eq.same_iff u n).0 same) k)
      | inr apart ↦
          let away : u ≢ n = λ e. let same = (nat_eq.same_iff u n).1 e in cc in
          no_lower u (omega (arith, away, h)) k
    ])
  ]
]

is_found : (q : Phase) → (q ≡ found) ⊎ (q ≢ found)
is_found started = inr (λ e. cc)
is_found found = inl refl
is_found inserted = inr (λ e. cc)
is_found holding = inr (λ e. cc)
is_found committed = inr (λ e. cc)
is_found failed = inr (λ e. cc)

has_account_cases :
    (q : Phase) → has_account q ≡ true → (q ≢ found × (0 < left q)) ⊎ (q ≡ committed)
has_account_cases started h = ground arith
has_account_cases found h = ground arith
has_account_cases inserted h = inl ((λ e. cc), omega arith)
has_account_cases holding h = inl ((λ e. cc), omega arith)
has_account_cases committed h = inr refl
has_account_cases failed h = ground arith

module _ (token : String) (callers : ℕ → Caller) (s : Race) where
  IsTaken-cases : (t u : ℕ) → IsTaken token callers s t u ⊎ (IsTaken token callers s t u → ⊥)
  IsTaken-cases t u = elim (Bool-cases (u == t)) [
    | inl same ↦ inr (λ k. k.0 ((nat_eq.same_iff u t).0 same))
    | inr apart ↦ elim (Bool-cases ((callers u).email == (callers t).email)) [
      | inr other ↦
          inr (λ k. let same = (string_eq.same_iff (callers u).email (callers t).email).1 k.1 in cc)
      | inl same ↦ elim (Bool-cases (has_account (s.phase u))) [
        | inl has ↦ inl (
          (λ e. let e' = (nat_eq.same_iff u t).1 e in cc),
          (string_eq.same_iff (callers u).email (callers t).email).0 same,
          has,
        )
        | inr lacks ↦ inr (λ k. let has = k.2 in cc)
      ]
    ]
  ]

  Next-Goes :
      (t : ℕ)
      → Next token (callers t) t s.row s.lock (s.phase t)
      → (s.phase t ≡ found → (u : ℕ) → IsTaken token callers s t u → ⊥)
      → Goes token callers s t
  Next-Goes t (row, lock, p, w, l) alone = runs w l alone

  free-Goes :
      (t : ℕ)
      → s.lock ≡ none
      → 0 < left (s.phase t)
      → (s.phase t ≡ found → (u : ℕ) → IsTaken token callers s t u → ⊥)
      → Goes token callers s t
  free-Goes t free h alone =
      Next-Goes t (rw free (free-Next token (callers t) t s.row (s.phase t) h)) alone

  -- The insert of `t` goes on, is refused, or waits for a transaction that gets on.
  insert-Goes :
      (n t : ℕ)
      → ((u : ℕ) → n ≤ u → s.phase u ≡ started)
      → s.lock ≡ none
      → s.phase t ≡ found
      → (u : ℕ) × Goes token callers s u
  insert-Goes n t idle free f =
      elim (search_below (λ u. IsTaken token callers s t u) (IsTaken-cases t) n) [
        | inr nobody ↦ (
          t,
          free-Goes t free (rw f (omega arith)) (λ e u k. elim (Bool-cases (ltb u n)) [
            | inl l ↦ nobody u (ground arith) k
            | inr g ↦ let e' = idle u (ground arith) in let has = k.2 in ground arith
          ]),
        )
        | inl (u, k) ↦ elim (has_account_cases (s.phase u) k.2) [
          | inl (apart, l) ↦ (u, free-Goes u free l (λ e. elim (apart e) [ ]))
          | inr c ↦ (t, duplicate u f k c)
        ]
      ]

-- Of n registrations by one invite that overlap, with rollbacks and revocations between them, while one is
-- unfinished there is one that gets on: neither the invite's row nor the unique index on the addresses lets
-- them all wait for each other.
pub progress :
    (token : String) (callers : ℕ → Caller) (row : Invite) (n : ℕ) (s : Race) (t : ℕ)
    → Reach token callers row s
    → ((u : ℕ) → n ≤ u → s.phase u ≡ started)
    → 0 < left (s.phase t)
    → (u : ℕ) × Goes token callers s u
progress token callers row n s t r idle h = elim (Option-cases s.lock) [
  | inl free ↦ elim (is_found (s.phase t)) [
    | inl f ↦ insert-Goes token callers s n t idle free f
    | inr apart ↦ (t, free-Goes token callers s t free h (λ e. elim (apart e) [ ]))
  ]
  | inr (u, l) ↦
      let held = (Reach-IsSound token callers row s r).held u l in
      (u, Next-Goes token callers s u (rw held (_, none, committed, commit, omega arith)) (λ e. cc))
]
