-- ===== src/Config.antt =====
-- internal/config/config.go: the settings from the environment; cmd/cellarkeep/main.go: the two commands,
-- each with the order of its steps.
pub mod Load
pub mod Start
use Prim.Native.Char.{Char, code}
use Prim.Native.String
use cellarkeep_server.Prelude.{
  ℕ, ◌+◌, String, Bool, true, false, ◌&&◌, List, [], ◌∷◌, ◌++◌, string_eq, ◌==◌, ltb, ◌⊎◌, inl, inr,
  if◌then◌else◌,
}
use cellarkeep_server.Prelude.Text.{has_prefix}

pub record Config : Type 0 where
  pub database_url : String
  pub session_secret : String
  pub client_origin : String
  pub addr : String

-- strings.TrimRight by a slash.
abbrev pub trim_right_slash : String → String
trim_right_slash String.[] = String.[]
trim_right_slash (String.◌∷◌ c s) =
    let rest = trim_right_slash s in
    if rest == "" && String.◌∷◌ c "" == "/" then String.[] else String.◌∷◌ c rest

-- The length in bytes of UTF-8.
abbrev pub rune_len : ℕ → ℕ
rune_len n = if ltb n 128 then 1 else if ltb n 2048 then 2 else if ltb n 65536 then 3 else 4

abbrev pub byte_len : String → ℕ
byte_len String.[] = 0
byte_len (String.◌∷◌ c s) = rune_len (code c) + byte_len s

-- The settings as they are read, before the checks.
abbrev pub raw : (String → String) → Config
raw getenv = record {
  database_url = getenv "DATABASE_URL";
  session_secret = getenv "SESSION_SECRET";
  client_origin = trim_right_slash (getenv "CLIENT_ORIGIN");
  addr = getenv "ADDR";
}

abbrev pub complaint : Bool → String → List String
complaint b text = if b then text ∷ [] else []

abbrev pub complaints : Config → List String
complaints c =
    complaint (c.database_url == "") "DATABASE_URL is required"
    ++ (complaint (ltb (byte_len c.session_secret) 32)
          "SESSION_SECRET must be at least 32 characters"
        ++ complaint (c.client_origin == "") "CLIENT_ORIGIN is required")

abbrev pub with_default_addr : Config → Config
with_default_addr c = if c.addr == "" then record c { addr = ":8080" } else c

-- The text of errors.Join.
abbrev pub join_lines : String → List String → String
join_lines first [] = first
join_lines first (next ∷ rest) = String.◌++◌ first (String.◌++◌ "\n" (join_lines next rest))

abbrev pub checked : Config → List String → String ⊎ Config
checked c [] = inr (with_default_addr c)
checked c (e ∷ es) = inl (String.◌++◌ "config: " (join_lines e es))

-- Load
unfoldable pub load : (String → String) → String ⊎ Config
load getenv = checked (raw getenv) (complaints (raw getenv))

-- InsecureCookies
unfoldable pub insecure_cookies : Config → Bool
unfolding has_prefix
insecure_cookies c = has_prefix c.client_origin "http://localhost"
