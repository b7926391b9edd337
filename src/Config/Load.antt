-- ===== src/Config/Load.antt =====
-- What Load of internal/config accepts.
use cellarkeep_server.Prelude.{
  subst, sym, String, Bool, false, List, [], ◌∷◌, string_eq, ◌==◌, ltb, ◌≡◌, ◌≢◌, ◌≤◌, refl, inl,
  inr, if◌then◌else◌, Bool-cases, arith, eq_iff,
}
use cellarkeep_server.Config.{
  Config, trim_right_slash, byte_len, raw, complaints, with_default_addr, checked, load,
}

abbrev pub ends_with_slash : String → Bool
ends_with_slash String.[] = false
ends_with_slash (String.◌∷◌ c s) = if s == "" then String.◌∷◌ c "" == "/" else ends_with_slash s

pub trim_right_slash-ends : (s : String) → ends_with_slash (trim_right_slash s) ≡ false
trim_right_slash-ends String.[] = refl
trim_right_slash-ends (String.◌∷◌ c s) = elim (Bool-cases (trim_right_slash s == "")) [
  | inl bare ↦ elim (Bool-cases (String.◌∷◌ c "" == "/")) [
    | inl slash ↦ simp (bare, slash) refl
    | inr other ↦ simp (bare, other) refl
  ]
  | inr more ↦ simp more (trim_right_slash-ends s)
]

-- Settings that the server can run with, taken from the environment.
pub record IsReady (getenv : String → String) (c : Config) : Type 0 where
  pub database : c.database_url ≡ getenv "DATABASE_URL"
  pub has_database : c.database_url ≢ ""
  pub secret : c.session_secret ≡ getenv "SESSION_SECRET"
  pub long_secret : 32 ≤ byte_len c.session_secret
  pub origin : c.client_origin ≡ trim_right_slash (getenv "CLIENT_ORIGIN")
  pub has_origin : c.client_origin ≢ ""
  pub no_slash : ends_with_slash c.client_origin ≡ false
  pub has_addr : c.addr ≢ ""

-- The settings that no complaint is about.
abbrev pub IsComplete : Config → Type 0
IsComplete c =
    (c.database_url == "" ≡ false)
    × (ltb (byte_len c.session_secret) 32 ≡ false)
    × (c.client_origin == "" ≡ false)

complaints-IsComplete : (c : Config) → complaints c ≡ [] → IsComplete c
complaints-IsComplete c h = ground arith

IsComplete-complaints : (c : Config) → IsComplete c → complaints c ≡ []
IsComplete-complaints c (d, s, o) = rw (d, s, o) refl

checked-inr :
    (r c : Config) (es : List String) → checked r es ≡ inr c → (es ≡ []) × (c ≡ with_default_addr r)
checked-inr r c [] h = (refl, ground arith)
checked-inr r c (e ∷ es) h = cc

not_empty : (x : String) → x == "" ≡ false → x ≢ ""
not_empty x h e = let same = (eq_iff x "").1 e in cc

given_addr : (r : Config) → (with_default_addr r).addr ≢ ""
given_addr r = elim (Bool-cases (r.addr == "")) [
  | inl unset ↦ rw unset (λ e. cc)
  | inr set ↦ rw set (not_empty r.addr set)
]

default_addr-same :
    (r : Config)
    → ((with_default_addr r).database_url ≡ r.database_url)
      × ((with_default_addr r).session_secret ≡ r.session_secret)
      × ((with_default_addr r).client_origin ≡ r.client_origin)
default_addr-same r = elim (Bool-cases (r.addr == "")) [
  | inl unset ↦ rw unset (refl, refl, refl)
  | inr set ↦ rw set (refl, refl, refl)
]

with_default_addr-IsReady :
    (getenv : String → String)
    → IsComplete (raw getenv)
    → IsReady getenv (with_default_addr (raw getenv))
with_default_addr-IsReady getenv (d, s, o) =
    let (sd, ss, so) = default_addr-same (raw getenv) in
    record {
      database = sd;
      has_database = rw sd (not_empty _ d);
      secret = ss;
      long_secret = rw ss (ground arith);
      origin = so;
      has_origin = rw so (not_empty _ o);
      no_slash = rw so (trim_right_slash-ends (getenv "CLIENT_ORIGIN"));
      has_addr = given_addr (raw getenv);
    }

-- Load returns only settings that the server can run with, each as it stands in the environment but for
-- the slashes at the end of the origin and the default of the address; and it returns some if the database
-- and the origin are given and the secret has at least 32 bytes.
pub load_lem :
    (getenv : String → String)
    → ((c : Config) → load getenv ≡ inr c → IsReady getenv c)
      × (IsComplete (raw getenv) → (c : Config) × (load getenv ≡ inr c))
unfolding load
load_lem getenv = (
  λ c h.
      (let (quiet, same) = checked-inr (raw getenv) c (complaints (raw getenv)) h in
        subst (IsReady getenv) (sym same)
          (with_default_addr-IsReady getenv (complaints-IsComplete (raw getenv) quiet))),
  λ h. (with_default_addr (raw getenv), rw (IsComplete-complaints (raw getenv) h) refl),
)
