-- ===== src/Domain/Users/SetupRace/Phases.antt =====
-- What the phases of overlapping setups say of the users and the lock, and that every statement keeps it.
use cellarkeep_server.Prelude.{
  length, ℕ, false, Option, none, some, List, [], ◌∷◌, ltb, ◌≡◌, ◌≢◌, ◌⊎◌, inl, inr, refl, ap, ◌∙◌,
  subst, nat_eq, arith,
}
use cellarkeep_server.Store.Model.{User}
use cellarkeep_server.Domain.Users.SetupRace.{
  SetupPhase, waiting, serialised, counted, created, made, refused, SetupRace, SetupWork, take_lock,
  count_none, count_some, create, finish, SetupAbort, abort_waiting, abort_serialised,
  abort_counted, abort_created,
}

-- What a phase says of the users and the lock.
abbrev pub Says : User → ℕ → List User → Option ℕ → SetupPhase → Type 0
Says a u users lock serialised = (lock ≡ some u) × Unit {0}
Says a u users lock counted = (lock ≡ some u) × (users ≡ [])
Says a u users lock created = (lock ≡ some u) × (users ≡ [])
Says a u users lock made = users ≡ a ∷ []
Says a u users lock _ = Unit {0}

pub record IsSerial (account : ℕ → User) (s : SetupRace) : Type 0 where
  pub says : (u : ℕ) → Says (account u) u s.users s.lock (s.phase u)
  pub single : (u v : ℕ) → s.phase u ≡ made → s.phase v ≡ made → u ≡ v
  pub made_by : (s.users ≡ []) ⊎ ((u : ℕ) × (s.phase u ≡ made))

not_mine : (t u : ℕ) (lock : Option ℕ) → u ≢ t → (lock ≡ none) ⊎ (lock ≡ some t) → lock ≡ some u → ⊥
not_mine t u lock apart (inl free) l = cc
not_mine t u lock apart (inr his) l = apart (ground arith)

length-nil : (users : List User) → ltb 0 (length users) ≡ false → users ≡ []
length-nil [] n = refl
length-nil (u ∷ us) n = ground arith

module _ (a : User) (t : ℕ) where
  pub SetupWork-Says :
      (users users' : List User) (lock lock' : Option ℕ) (p p' : SetupPhase)
      → SetupWork a t users lock p users' lock' p'
      → Says a t users lock p
      → Says a t users' lock' p'
  SetupWork-Says users users' lock lock' p p' take_lock h = (refl, tt)
  SetupWork-Says users users' lock lock' p p' (count_none n) h = (h.0, length-nil users n)
  SetupWork-Says users users' lock lock' p p' (count_some n) h = tt
  SetupWork-Says users users' lock lock' p p' create h = h
  SetupWork-Says users users' lock lock' p p' finish h = ap (λ us. a ∷ us) h.1

  -- Only who has counted no users can make one.
  pub SetupWork-made :
      (users users' : List User) (lock lock' : Option ℕ) (p p' : SetupPhase)
      → SetupWork a t users lock p users' lock' p'
      → Says a t users lock p
      → p' ≡ made
      → users ≡ []
  SetupWork-made users users' lock lock' p p' take_lock h e = cc
  SetupWork-made users users' lock lock' p p' (count_none n) h e = cc
  SetupWork-made users users' lock lock' p p' (count_some n) h e = cc
  SetupWork-made users users' lock lock' p p' create h e = cc
  SetupWork-made users users' lock lock' p p' finish h e = h.1

  -- A statement by a call that is done or makes users.
  pub SetupWork-users :
      (users users' : List User) (lock lock' : Option ℕ) (p p' : SetupPhase)
      → SetupWork a t users lock p users' lock' p'
      → (p' ≡ made) ⊎ ((users' ≡ users) × (p ≢ made))
  SetupWork-users users users' lock lock' p p' take_lock = inr (refl, λ e. cc)
  SetupWork-users users users' lock lock' p p' (count_none n) = inr (refl, λ e. cc)
  SetupWork-users users users' lock lock' p p' (count_some n) = inr (refl, λ e. cc)
  SetupWork-users users users' lock lock' p p' create = inr (refl, λ e. cc)
  SetupWork-users users users' lock lock' p p' finish = inl refl

  -- The other calls.
  module _ (b : User) (u : ℕ) (apart : u ≢ t) where
    other_lock :
        (users users' : List User) (lock lock' : Option ℕ) (q : SetupPhase)
        → (lock ≡ none) ⊎ (lock ≡ some t)
        → (q ≡ made → users' ≡ users)
        → Says b u users lock q
        → Says b u users' lock' q
    other_lock users users' lock lock' waiting l same h = tt
    other_lock users users' lock lock' refused l same h = tt
    other_lock users users' lock lock' made l same h = same refl ∙ h
    other_lock users users' lock lock' serialised l same h =
        elim (not_mine t u lock apart l h.0) [ ]
    other_lock users users' lock lock' counted l same h = elim (not_mine t u lock apart l h.0) [ ]
    other_lock users users' lock lock' created l same h = elim (not_mine t u lock apart l h.0) [ ]

    pub SetupWork-Says-other :
        (users users' : List User) (lock lock' : Option ℕ) (p p' q : SetupPhase)
        → SetupWork a t users lock p users' lock' p'
        → Says a t users lock p
        → Says b u users lock q
        → Says b u users' lock' q
    SetupWork-Says-other users users' lock lock' p p' q take_lock h k =
        other_lock users users none lock' q (inl refl) (λ e. refl) k
    SetupWork-Says-other users users' lock lock' p p' q (count_none n) h k = k
    SetupWork-Says-other users users' lock lock' p p' q (count_some n) h k =
        other_lock users users lock none q (inr h.0) (λ e. refl) k
    SetupWork-Says-other users users' lock lock' p p' q create h k = k
    SetupWork-Says-other users users' lock lock' p p' q finish h k =
        other_lock users (a ∷ users) lock none q (inr h.0)
          (λ e. let full = subst (Says b u users lock) e k in let none' = h.1 in cc) k

    pub SetupAbort-Says :
        (users : List User) (lock lock' : Option ℕ) (p q : SetupPhase)
        → SetupAbort lock p lock'
        → Says a t users lock p
        → Says b u users lock q
        → Says b u users lock' q
    SetupAbort-Says users lock lock' p q abort_waiting h k = k
    SetupAbort-Says users lock lock' p q abort_serialised h k =
        other_lock users users lock none q (inr h.0) (λ e. refl) k
    SetupAbort-Says users lock lock' p q abort_counted h k =
        other_lock users users lock none q (inr h.0) (λ e. refl) k
    SetupAbort-Says users lock lock' p q abort_created h k =
        other_lock users users lock none q (inr h.0) (λ e. refl) k
