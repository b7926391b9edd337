-- ===== src/Auth/Limiter.antt =====
-- internal/auth/ratelimit.go: the fixed-window counter, a map from keys to entries. The mutex makes
-- each call one step, so a run of the limiter is a sequence of calls, each at its own time.
pub mod Window
use cellarkeep_server.Prelude.{
  ℕ, suc, ◌+◌, String, Bool, true, false, Option, none, some, List, [], ◌∷◌, length, nat_eq,
  string_eq, ◌==◌, ltb, leb, if◌then◌else◌,
}
use cellarkeep_server.Store.Model.{Time}

pub record Entry : Type 0 where
  pub count : ℕ
  pub reset : Time

pub record Limiter : Type 0 where
  pub max : ℕ
  pub window : Time
  pub hits : List (String × Entry)

unfoldable pub new_limiter : ℕ → Time → Limiter
new_limiter max window = record { max = max; window = window; hits = [] }

-- l.hits[key]
unfoldable pub lookup : String → List (String × Entry) → Option Entry
lookup key [] = none
lookup key ((k, e) ∷ hits) = if k == key then some e else lookup key hits

-- l.hits[key] = e
unfoldable pub insert : String → Entry → List (String × Entry) → List (String × Entry)
insert key e [] = (key, e) ∷ []
insert key e ((k, d) ∷ hits) = if k == key then (key, e) ∷ hits else (k, d) ∷ insert key e hits

unfoldable pub store : String → Entry → Limiter → Limiter
unfolding insert
store key e l = record l { hits = insert key e l.hits }

-- A first hit, or one after the window.
unfoldable pub open_window : Time → String → Limiter → Bool × Limiter
unfolding store
open_window now key l = (true, store key (record { count = 1; reset = now + l.window }) l)

-- A hit inside the window of an entry.
unfoldable pub count_hit : String → Entry → Limiter → Bool × Limiter
unfolding store
count_hit key e l =
    if leb l.max e.count
    then (false, l)
    else (true, store key (record { count = suc e.count; reset = e.reset }) l)

-- Limiter.Allow, at the time that l.now() returns.
unfoldable pub allow : Time → String → Limiter → Bool × Limiter
unfolding lookup open_window count_hit
allow now key l = elim (lookup key l.hits) [
  | none ↦ open_window now key l
  | some e ↦ if ltb e.reset now then open_window now key l else count_hit key e l
]

-- Limiter.Len
unfoldable pub len : Limiter → ℕ
len l = length l.hits
