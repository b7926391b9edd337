-- ===== src/Api/Handlers/Limits.antt =====
-- The two limits in front of AuthLogin of internal/api/handler_auth.go.
use cellarkeep_server.Prelude.{String, Bool, false, ◌≡◌, refl, arith, inl, inr, Option-cases}
use cellarkeep_server.Store.Model.{Time}
use cellarkeep_server.Store.Action.{clock}
use cellarkeep_server.Auth.Limiter.{Limiter, lookup, open_window, count_hit, allow}
use cellarkeep_server.Api.Types.{Credentials, decoded, decode}
use cellarkeep_server.Api.Handlers.{
  Handlers, Server, client_ip, allow_login, too_many, limited_login, auth_login,
}

-- A refused hit leaves the limiter as it was.
allow-false : (t : Time) (k : String) (l : Limiter) → (allow t k l).0 ≡ false → (allow t k l).1 ≡ l
unfolding allow open_window count_hit
allow-false t k l h = elim (Option-cases (lookup k l.hits)) [
  | inl new ↦ ground arith
  | inr (e, old) ↦ ground arith
]

-- The first check that AuthLogin makes: the address, on its own.
abbrev pub by_address : Handlers → String → Server → Bool × Server
by_address h remote_addr s = allow_login h (client_ip h.store.runtime remote_addr) s

-- A login from a blocked address is answered 429 before the account is looked at: the limiter, which
-- would count the account's key next, and the tables stay as they are.
pub blocked_address :
    (h : Handlers) (remote_addr : String) (input : Credentials) (s : Server)
    → (by_address h remote_addr s).0 ≡ false
    → let out = auth_login h remote_addr (decoded input) s in
      (out.0 ≡ too_many) × (out.1.logins ≡ s.logins) × (out.1.world.tables ≡ s.world.tables)
unfolding auth_login limited_login decode allow_login clock
blocked_address h remote_addr input s blocked =
    rw (blocked, limited_login)
      (
        refl,
        allow-false (h.store.runtime.now s.world.tick) (client_ip h.store.runtime remote_addr)
            s.logins blocked,
        refl,
      )
