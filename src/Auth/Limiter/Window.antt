-- ===== src/Auth/Limiter/Window.antt =====
-- What the limiter of internal/auth/ratelimit.go lets through: the hits of one key in one window,
-- whatever the hits of the other keys between them.
use Prim.Native.Nat.{min}
use native.Mathlib.Decide.{dec_lt}
use text.Mathlib.TextPositions.{eq_refl}
use cellarkeep_server.Prelude.{
  ℕ, suc, ◌+◌, ◌-◌, ◌≤◌, ◌<◌, String, true, false, ◌&&◌, some, List, [], ◌∷◌, length, nat_eq,
  string_eq, ◌==◌, ◌≡◌, ◌≢◌, refl, sym, inl, inr, if◌then◌else◌, arith, eq_iff, All, is_some,
  Bool-cases, Option-cases, is_some, ◌∙◌, subst,
}
use cellarkeep_server.Store.Model.{Time}
use cellarkeep_server.Auth.Limiter.{len, Entry, Limiter, lookup, insert, store, allow}

lookup-insert :
    (k j : String) (e : Entry) (m : List (String × Entry))
    → lookup j (insert k e m) ≡ (if k == j then some e else lookup j m)
unfolding lookup insert
lookup-insert k j e [] = refl
lookup-insert k j e ((i, d) ∷ m) =
    ground (arith, eq_iff k j, eq_iff i k, eq_iff i j, lookup-insert k j e m)

length-insert :
    (k : String) (e : Entry) (m : List (String × Entry))
    → length (insert k e m) ≡ length m + (if is_some (lookup k m) then 0 else 1)
unfolding lookup insert
length-insert k e [] = refl
length-insert k e ((i, d) ∷ m) = ground (arith, length-insert k e m)

-- A call about one key leaves the entry of every other key alone.
allow_ne :
    (t : Time) (k j : String) (l : Limiter)
    → k ≢ j
    → lookup j (allow t k l).1.hits ≡ lookup j l.hits
unfolding allow
allow_ne t k j l h = grind (arith, lookup-insert, eq_iff k j)

max-allow : (t : Time) (k : String) (l : Limiter) → (allow t k l).1.max ≡ l.max
unfolding allow
max-allow t k l = ground arith

module _ (t : Time) (k : String) (e : Entry) (l : Limiter) (found : lookup k l.hits ≡ some e)
    (live : t ≤ e.reset) where
  -- A window with room counts the hit, and keeps its end.
  allow_room :
      e.count < l.max
      → allow t k l ≡ (true, store k (record { count = suc e.count; reset = e.reset }) l)
  unfolding allow
  allow_room room = rw (found, allow) (ground arith)

  -- A full window refuses it, and nothing changes.
  allow_full : l.max ≤ e.count → allow t k l ≡ (false, l)
  unfolding allow
  allow_full full = rw (found, allow) (ground arith)

lookup-store : (k : String) (e : Entry) (l : Limiter) → lookup k (store k e l).hits ≡ some e
unfolding store
lookup-store k e l = simp (lookup-insert, eq_refl)

max-store : (k : String) (e : Entry) (l : Limiter) → (store k e l).max ≡ l.max
unfolding store
max-store k e l = refl

-- The hits that a run of the limiter lets through for a key, and those that it gets.
abbrev pub admitted : String → List (Time × String) → Limiter → ℕ
admitted key [] l = 0
admitted key ((t, k) ∷ hs) l =
    let (passed, l') = allow t k l in (if passed && k == key then 1 else 0) + admitted key hs l'

abbrev pub attempts : String → List (Time × String) → ℕ
attempts key [] = 0
attempts key ((t, k) ∷ hs) = (if k == key then 1 else 0) + attempts key hs

-- Inside a window a key gets as many hits through as the window has room for, and no more.
pub live_admits :
    (key : String) (e : Entry) (hs : List (Time × String)) (l : Limiter)
    → lookup key l.hits ≡ some e
    → e.count ≤ l.max
    → All (λ h. h.0 ≤ e.reset) hs
    → admitted key hs l ≡ min (attempts key hs) (l.max - e.count)
live_admits key e [] l h le a = omega arith
live_admits key e ((t, k) ∷ hs) l h le (now, later) = elim (Bool-cases (k == key)) [
  | inr other ↦
      let ne : k ≢ key = ground (arith, eq_iff k key) in
      let ih =
        live_admits key e hs (allow t k l).1 (allow_ne t k key l ne ∙ h) (rw max-allow le) later in
      ground (arith, ih, max-allow t k l)
  | inl same ↦
      let here : key ≡ k = sym ((eq_iff k key).0 same) in
      let found : lookup k l.hits ≡ some e = subst (λ j. lookup j l.hits ≡ some e) here h in
      elim (dec_lt e.count l.max) [
        | yes room ↦
            let e' : Entry = record { count = suc e.count; reset = e.reset } in
            let there =
              subst (λ j. lookup j (store k e' l).hits ≡ some e') (sym here)
                (lookup-store k e' l) in
            rw (allow_room t k e l found now room, same)
              (omega (
                arith,
                live_admits key e' hs (store k e' l) there (rw max-store room) later,
                max-store k e' l,
              ))
        | no full ↦
            rw (allow_full t k e l found now (omega arith), same)
              (omega (arith, live_admits key e hs l h le later))
      ]
]

-- No window of the key is open at a time.
abbrev pub NoWindow : Time → String → Limiter → Type 0
NoWindow t key l = (e : Entry) → lookup key l.hits ≡ some e → e.reset < t

allow_open :
    (t : Time) (key : String) (l : Limiter)
    → NoWindow t key l
    → allow t key l ≡ (true, store key (record { count = 1; reset = t + l.window }) l)
unfolding allow
allow_open t key l none_open = elim (Option-cases (lookup key l.hits)) [
  | inl new ↦ rw (new, allow) refl
  | inr (e, old) ↦ let past = none_open e old in rw (old, allow) (ground arith)
]

-- From the hit that opens a window on, a key gets at most the limit through until the window ends,
-- and all of its hits if there are no more than that; the hits of other keys do not matter.
pub window_admits :
    (t : Time) (key : String) (hs : List (Time × String)) (l : Limiter)
    → 1 ≤ l.max
    → NoWindow t key l
    → All (λ h. h.0 ≤ t + l.window) hs
    → admitted key ((t, key) ∷ hs) l ≡ min (suc (attempts key hs)) l.max
window_admits t key hs l room closed a =
    let e : Entry = record { count = 1; reset = t + l.window } in
    rw (allow_open t key l closed, eq_refl)
      (omega (
        arith,
        live_admits key e hs (store key e l) (lookup-store key e l) (rw max-store room) a,
        max-store key e l,
      ))

-- A call tracks at most one more key: its own, when it is new.
pub len-allow :
    (t : Time) (k : String) (l : Limiter)
    → len (allow t k l).1 ≡ len l + (if is_some (lookup k l.hits) then 0 else 1)
unfolding allow len
len-allow t k l = grind (arith, length-insert)
