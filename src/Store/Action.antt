-- ===== src/Store/Action.antt =====
-- A database call as a state transformer that can fail, the errors of the program, and the
-- transactions of internal/store/db.go. What the program does not implement (the connection, the
-- clock, randomness, the text, hash and float libraries) is the record `Runtime`; each call takes
-- its own `tick`, so two calls never see the same draw.
use Prim.Native.Char.{Char}
use cellarkeep_server.Prelude.{
  ℕ, suc, String, Bool, true, false, Option, none, some, List, if◌then◌else◌, ◌≡◌, refl, ◌⊎◌, inl,
  inr,
}
use cellarkeep_server.Store.Model.{Uuid, Time, Float32, Float64, Tables}

-- How a statement or a commit meets the connection: it runs; it is refused; or it takes effect and
-- the acknowledgement is lost, so that the caller sees an error.
pub data Link : Type 0 where
  up down lost : Link

-- The number libraries: Go's float64, float32 and `math`.
pub record Floats : Type 0 where
  pub add : Float64 → Float64 → Float64
  pub sub : Float64 → Float64 → Float64
  pub mul : Float64 → Float64 → Float64
  pub div : Float64 → Float64 → Float64
  pub min : Float64 → Float64 → Float64
  pub max : Float64 → Float64 → Float64
  pub lt : Float64 → Float64 → Bool
  pub le : Float64 → Float64 → Bool
  pub round : Float64 → Float64
  pub widen : Float32 → Float64
  pub narrow : Float64 → Float32
  -- an integer as a float64
  pub of_ℕ : ℕ → Float64

pub record Runtime : Type 0 where
  pub link : ℕ → Link
  pub now : ℕ → Time
  -- gen_random_uuid()
  pub uuid : ℕ → Uuid
  -- rand.Read of so many bytes
  pub random : ℕ → ℕ → Option (List ℕ)
  -- strings.ToLower, strings.TrimSpace
  pub to_lower : String → String
  pub trim_space : String → String
  -- unicode.ToLower
  pub to_lower_rune : Char → Char
  -- s[:n] in bytes
  pub byte_prefix : String → ℕ → String
  -- the host that net.SplitHostPort finds
  pub split_host_port : String → Option String
  -- base64.RawURLEncoding.EncodeToString
  pub base64_url : List ℕ → String
  -- base64.RawStdEncoding
  pub base64_std : List ℕ → String
  pub decode_base64_std : String → Option (List ℕ)
  -- argon2.IDKey, by password, salt, time, memory, threads and key length
  pub id_key : String → List ℕ → ℕ → ℕ → ℕ → ℕ → List ℕ
  -- fmt.Sprintf and fmt.Sscanf by the format "m=%d,t=%d,p=%d"
  pub print_params : ℕ → ℕ → ℕ → String
  pub scan_params : String → Option (ℕ × ℕ × ℕ)
  -- subtle.ConstantTimeCompare
  pub constant_time_compare : List ℕ → List ℕ → Bool
  -- the order of text columns, by the database's collation
  pub text_lt : String → String → Bool
  pub floats : Floats

pub data DbError : Type 0 where
  unavailable unique_violation foreign_key_violation invalid_enum : DbError

-- The errors that the program tells apart: those of internal/domain/errors.go, pgx.ErrNoRows, other
-- database errors, a failed read of random bytes, and errBodyTooLarge of internal/api/handlers.go.
pub data Error : Type 0 where
  not_found conflict forbidden no_rows random_failed body_too_large : Error
  validation : String → String → Error
  database : DbError → Error

pub data Result (A : Type 0) : Type 0 where
  ok : A → Result A
  err : Error → Result A

pub Result-cases :
    {A : Type 0} (r : Result A) → ((a : A) × (r ≡ ok a)) ⊎ ((e : Error) × (r ≡ err e))
Result-cases (ok a) = inl (a, refl)
Result-cases (err e) = inr (e, refl)

abbrev pub is_err : {A : Type 0} → Result A → Bool
is_err (ok a) = false
is_err (err e) = true

pub record World : Type 0 where
  pub tables : Tables
  pub tick : ℕ

-- store.Store: the runtime behind the pool, and whether a transaction is already open.
pub record Store : Type 0 where
  pub runtime : Runtime
  pub tx : Bool

abbrev pub Action : Type 0 → Type 0
Action A = World → Result A × World

module _ {A : Type 0} where
  abbrev pub pure : A → Action A
  pure a w = (ok a, w)

  abbrev pub raise : Error → Action A
  raise e w = (err e, w)

  -- The result as a value, for code that looks at `err` itself.
  abbrev pub attempt : Action A → Action (Result A)
  attempt m w = let (r, w') = m w in (ok r, w')

  abbrev pub of_result : Result A → Action A
  of_result r w = (r, w)

abbrev pub resume : {A B : Type 0} → (A → Action B) → Result A × World → Result B × World
resume f (ok a, w) = f a w
resume f (err e, w) = (err e, w)

infixl 5 ◌>>=◌ ◌>>◌
abbrev pub ◌>>=◌ : {A B : Type 0} → Action A → (A → Action B) → Action B
◌>>=◌ m f w = resume f (m w)

abbrev pub ◌>>◌ : {A B : Type 0} → Action A → Action B → Action B
m >> k = m >>= λ _. k

abbrev pub raise_if : Bool → Error → Action (Unit {0})
raise_if b e w = (if b then err e else ok tt, w)

-- What a statement does to the tables when it reaches the database, at its tick.
abbrev pub Statement : Type 0 → Type 0
Statement A = ℕ → Tables → Result (A × Tables)

abbrev pub after : World → World
after w = record { tables = w.tables; tick = suc w.tick }

abbrev pub settle : {A : Type 0} → Bool → World → Result (A × Tables) → Result A × World
settle heard w (ok (a, t)) =
    (if heard then ok a else err (database unavailable), record { tables = t; tick = suc w.tick })
settle heard w (err e) = (if heard then err e else err (database unavailable), after w)

abbrev pub send : {A : Type 0} → Link → World → Result (A × Tables) → Result A × World
send up w r = settle true w r
send lost w r = settle false w r
send down w r = (err (database unavailable), after w)

-- One statement: a failed one leaves the tables as they were.
unfoldable pub run : {A : Type 0} → Store → Statement A → Action A
run s f w = send (s.runtime.link w.tick) w (f w.tick w.tables)

-- The end of a transaction: commit after a nil error, and roll back to `t` otherwise.
abbrev pub finish : {A : Type 0} → Link → Tables → Result A × World → Result A × World
finish up t (ok a, w) = (ok a, after w)
finish lost t (ok a, w) = (err (database unavailable), after w)
finish down t (ok a, w) = (err (database unavailable), record { tables = t; tick = suc w.tick })
finish l t (err e, w) = (err e, record { tables = t; tick = suc w.tick })

abbrev pub end_tx : {A : Type 0} → Store → Tables → Result A × World → Result A × World
end_tx s t p = finish (s.runtime.link (p.1).tick) t p

-- From the begin of a transaction on.
abbrev pub in_tx : {A : Type 0} → Link → Store → Action A → Action A
in_tx up s fn w = end_tx s w.tables (fn (after w))
in_tx _ s fn w = (err (database unavailable), after w)

-- Store.WithTx
unfoldable pub with_tx : {A : Type 0} → Store → Action A → Action A
with_tx s fn w = if s.tx then fn w else in_tx (s.runtime.link w.tick) s fn w

-- A statement that reads.
abbrev pub reading : {A : Type 0} → (ℕ → Tables → Result A) → Statement A
reading f t db = elim (f t db) [ ok a ↦ ok (a, db) | err e ↦ err e ]

-- The row of a `:one` query.
abbrev pub one : {A : Type 0} → Option A → Result A
one none = err no_rows
one (some a) = ok a

-- rand.Read
unfoldable pub draw : Store → ℕ → Action (List ℕ)
draw s n w = elim (s.runtime.random w.tick n) [
  | none ↦ (err random_failed, after w)
  | some bytes ↦ (ok bytes, after w)
]

-- time.Now
unfoldable pub clock : Store → Action Time
clock s w = (ok (s.runtime.now w.tick), after w)
