-- ===== src/Store/Triple.antt =====
-- What an action does to the tables on every outcome: a postcondition for a result, another for an
-- error, and a rule for each way to build an action. The rule of a transaction needs nothing of the
-- errors inside it, since they are rolled back.
use cellarkeep_server.Prelude.{
  ℕ, Bool, true, false, ◌≡◌, ◌⊎◌, refl, arith, inl, inr, subst, Option, none, some, List,
}
use cellarkeep_server.Store.Model.{Tables}
use cellarkeep_server.Store.Action.{
  Link, up, down, lost, send, in_tx, Error, Result, ok, err, World, Store, Action, Statement, pure,
  raise_if, ◌>>=◌, after, finish, settle, resume, one, random_failed, run, reading, with_tx, draw,
  clock,
}

abbrev pub Post :
    {A : Type 0} → (A → Tables → Type 0) → (Tables → Type 0) → Result A × World → Type 0
Post Q E (ok a, w) = Q a w.tables
Post Q E (err e, w) = E w.tables

pub record Triple {A : Type 0} (P : Tables → Type 0) (m : Action A) (Q : A → Tables → Type 0)
    (E : Tables → Type 0) : Type 0 where
  pub at : (w : World) → P w.tables → Post Q E (m w)

abbrev pub Anything : Tables → Type 0
Anything _ = Unit

module _ {A : Type 0} {Q : A → Tables → Type 0} {E : Tables → Type 0} where
  Post-settle :
      (b : Bool) (w : World) (r : Result (A × Tables))
      → ((a : A) (db : Tables) → r ≡ ok (a, db) → Q a db × E db)
      → E w.tables
      → Post Q E (settle b w r)
  Post-settle true w (ok (a, t)) q e = (q a t refl).0
  Post-settle false w (ok (a, t)) q e = (q a t refl).1
  Post-settle true w (err x) q e = e
  Post-settle false w (err x) q e = e

  Post-send :
      (l : Link) (w : World) (r : Result (A × Tables))
      → ((a : A) (db : Tables) → r ≡ ok (a, db) → Q a db × E db)
      → E w.tables
      → Post Q E (send l w r)
  Post-send up w r q e = Post-settle true w r q e
  Post-send lost w r q e = Post-settle false w r q e
  Post-send down w r q e = e

  Post-finish :
      (l : Link) (t : Tables) (p : Result A × World)
      → Post Q Anything p
      → ((a : A) (db : Tables) → Q a db → E db)
      → E t
      → Post Q E (finish l t p)
  Post-finish up t (ok a, w) q k e = q
  Post-finish lost t (ok a, w) q k e = k a w.tables q
  Post-finish down t (ok a, w) q k e = e
  Post-finish up t (err x, w) q k e = e
  Post-finish _ t (err x, w) q k e = e

module _ {A B : Type 0} {Q : A → Tables → Type 0} {E : Tables → Type 0} where
  Post-resume :
      (R : B → Tables → Type 0) (f : B → Action A) (p : Result B × World)
      → Post R E p
      → ((b : B) → Triple (R b) (f b) Q E)
      → Post Q E (resume f p)
  Post-resume R f (ok b, w) r k = (k b).at w r
  Post-resume R f (err e, w) r k = r

pub reading-eq-ok :
    {A : Type 0} (r : Result A) {a : A} (db : Tables) {db' : Tables}
    → ◌≡◌ {A = Result (A × Tables)} (elim r [ ok a' ↦ ok (a', db) | err e ↦ err e ]) (ok (a, db'))
    → (r ≡ ok a) × (db ≡ db')
reading-eq-ok (ok a') db h = (cc, cc)
reading-eq-ok (err e) db h = (cc, cc)

module _ {A : Type 0} {P : Tables → Type 0} {Q : A → Tables → Type 0} {E : Tables → Type 0} where
  -- A statement: its result holds, or the tables are as before, or it took effect unheard.
  pub Triple-run :
      (s : Store) (f : Statement A)
      → ((t : ℕ) (db : Tables) (a : A) (db' : Tables)
          → P db
          → f t db ≡ ok (a, db')
          → Q a db' × E db')
      → ((db : Tables) → P db → E db)
      → Triple P (run s f) Q E
  unfolding run
  Triple-run s f q e = record {
    at = λ w p.
        Post-send (s.runtime.link w.tick) w (f w.tick w.tables)
          (λ a db x. q w.tick w.tables a db p x) (e w.tables p);
  }

  -- A statement that reads.
  pub Triple-reading :
      (s : Store) (f : ℕ → Tables → Result A)
      → ((t : ℕ) (db : Tables) (a : A) → P db → f t db ≡ ok a → Q a db)
      → ((db : Tables) → P db → E db)
      → Triple P (run s (reading f)) Q E
  Triple-reading s f q e =
      Triple-run s (reading f)
        (λ t db a db' p h.
          let (found, same) = reading-eq-ok (f t db) db h in
          (subst (Q a) same (q t db a p found), subst E same (e db p)))
        e

  pub Triple-pure : (a : A) → ((db : Tables) → P db → Q a db) → Triple P (pure a) Q E
  Triple-pure a q = record { at = λ w p. q w.tables p }

  pub Triple-bind :
      {B : Type 0} (R : B → Tables → Type 0) {m : Action B} {f : B → Action A}
      → Triple P m R E
      → ((b : B) → Triple (R b) (f b) Q E)
      → Triple P (m >>= f) Q E
  Triple-bind R {m} {f} t k = record { at = λ w p. Post-resume R f (m w) (t.at w p) k }

  -- Only the rules inside need a postcondition for errors: a transaction rolls them back.
  pub Triple-with_tx :
      (s : Store) (fn : Action A)
      → s.tx ≡ false
      → Triple P fn Q Anything
      → ((a : A) (db : Tables) → Q a db → E db)
      → ((db : Tables) → P db → E db)
      → Triple P (with_tx s fn) Q E
  unfolding with_tx
  Triple-with_tx s fn no_tx t k e = record {
    at = λ w p. simp no_tx (Post-in_tx (s.runtime.link w.tick) w p);
  }
    where
      Post-in_tx : (l : Link) (w : World) → P w.tables → Post Q E (in_tx l s fn w)
      Post-in_tx up w p =
          Post-finish (s.runtime.link (fn (after w)).1.tick) w.tables (fn (after w))
            (t.at (after w) p) k (e w.tables p)
      Post-in_tx down w p = e w.tables p
      Post-in_tx lost w p = e w.tables p

-- A guard: the test is known to have failed in what follows.
pub Triple-raise_if :
    {P : Tables → Type 0} {Q : Unit {0} → Tables → Type 0} {E : Tables → Type 0} (b : Bool)
    (e : Error)
    → ((db : Tables) → b ≡ false → P db → Q tt db)
    → ((db : Tables) → P db → E db)
    → Triple P (raise_if b e) Q E
Triple-raise_if true e q k = record { at = λ w p. k w.tables p }
Triple-raise_if false e q k = record { at = λ w p. q w.tables refl p }

-- Randomness and the clock do not touch the tables.
pub Triple-draw :
    {P : Tables → Type 0} {E : Tables → Type 0} (s : Store) (n : ℕ)
    → ((db : Tables) → P db → E db)
    → Triple P (draw s n) (λ _. P) E
unfolding draw
Triple-draw {P} {E} s n e = record { at = λ w p. split w p (s.runtime.random w.tick n) }
  where
    split :
        (w : World) (p : P w.tables) (o : Option (List ℕ))
        → Post
            (λ _. P)
            E
            (elim o as (λ _. Result (List ℕ) × World) [
              | none ↦ (err random_failed, after w)
              | some bytes ↦ (ok bytes, after w)
            ])
    split w p none = e w.tables p
    split w p (some b) = p

pub Triple-clock :
    {P : Tables → Type 0} {E : Tables → Type 0} (s : Store) → Triple P (clock s) (λ _. P) E
unfolding clock
Triple-clock s = record { at = λ w p. p }

pub Triple-weaken :
    {A : Type 0} {P : Tables → Type 0} {Q R : A → Tables → Type 0} {E F : Tables → Type 0}
    {m : Action A}
    → Triple P m Q E
    → ((a : A) (db : Tables) → Q a db → R a db)
    → ((db : Tables) → E db → F db)
    → Triple P m R F
Triple-weaken {Q} {R} {E} {F} {m} t q e = record { at = λ w p. split (m w) (t.at w p) }
  where
    split : (p : Result _ × World) → Post Q E p → Post R F p
    split (ok a, w) h = q a w.tables h
    split (err x, w) h = e w.tables h

-- After an error: the tables are as before, or the whole effect is there and was not acknowledged.
abbrev pub AllOrNothing : {A : Type 0} → Tables → (A → Tables → Type 0) → Tables → Type 0
AllOrNothing {A} before R db = (db ≡ before) ⊎ ((a : A) × R a db)

-- A statement that writes, from known tables.
pub Triple-write :
    {A : Type 0} (s : Store) (f : Statement A) (before : Tables) (R : A → Tables → Type 0)
    → ((t : ℕ) (a : A) (db : Tables) → f t before ≡ ok (a, db) → R a db)
    → Triple (λ db. db ≡ before) (run s f) R (AllOrNothing before R)
Triple-write s f before R r =
    Triple-run s f
      (λ t db a db' p h.
        let done = r t a db' (subst (λ x. f t x ≡ ok (a, db')) p h) in (done, inr (a, done)))
      (λ db p. inl p)

-- A transaction over a body with a known result, from known tables.
pub Triple-atomic :
    {A : Type 0} (s : Store) (fn : Action A) (before : Tables) (R : A → Tables → Type 0)
    → s.tx ≡ false
    → Triple (λ db. db ≡ before) fn R Anything
    → Triple (λ db. db ≡ before) (with_tx s fn) R (AllOrNothing before R)
Triple-atomic s fn before R no_tx t =
    Triple-with_tx s fn no_tx t (λ a db r. inr (a, r)) (λ db p. inl p)

-- A fact that does not mention the tables is taken out of the precondition.
pub Triple-given :
    {A : Type 0} {F : Type 0} {P : Tables → Type 0} {m : Action A} {Q : A → Tables → Type 0}
    {E : Tables → Type 0}
    → (F → Triple P m Q E)
    → Triple (λ db. P db × F) m Q E
Triple-given t = record { at = λ w p. (t p.1).at w p.0 }

-- Where nothing is asked after an error.
pub Triple-Anything :
    {A : Type 0} {P : Tables → Type 0} {m : Action A} {Q : A → Tables → Type 0}
    {E : Tables → Type 0}
    → Triple P m Q E
    → Triple P m Q Anything
Triple-Anything t = Triple-weaken t (λ a db q. q) (λ db e. tt)

-- An action is followed from each of the tables that it may begin with.
pub Triple-from :
    {A : Type 0} {P : Tables → Type 0} {m : Action A} {Q : A → Tables → Type 0}
    {E : Tables → Type 0}
    → ((before : Tables) → P before → Triple (λ db. db ≡ before) m Q E)
    → Triple P m Q E
Triple-from t = record { at = λ w p. (t w.tables p).at w refl }

pub one-eq-ok : {A : Type 0} (o : Option A) (a : A) → one o ≡ ok a → o ≡ some a
one-eq-ok none a h = cc
one-eq-ok (some b) a h = ground arith

-- What an action has done, once its result is known.
pub Post-ok :
    {A : Type 0} (Q : A → Tables → Type 0) (E : Tables → Type 0) (p : Result A × World) (a : A)
    → p.0 ≡ ok a
    → Post Q E p
    → Q a p.1.tables
Post-ok Q E (ok b, w) a e h = let same : b ≡ a = cc in subst (λ x. Q x w.tables) same h
Post-ok Q E (err x, w) a e h = cc

-- Every action does something.
pub Triple-always :
    {A : Type 0} {P : Tables → Type 0} (m : Action A) → Triple P m (λ _. Anything) Anything
Triple-always {A} m = record { at = λ w p. split (m w) }
  where
    split : (p : Result A × World) → Post (λ _. Anything) Anything p
    split (ok a, w) = tt
    split (err x, w) = tt

-- An invariant that every outcome keeps.
pub Post-invariant :
    {A : Type 0} (I : Tables → Type 0) (p : Result A × World) → Post (λ _. I) I p → I p.1.tables
Post-invariant I (ok a, w) h = h
Post-invariant I (err e, w) h = h
