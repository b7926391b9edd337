-- ===== src/Config/Start.antt =====
-- cmd/cellarkeep/main.go: the commands serve and migrate. What they call outside the repository (the pool,
-- the migrations, the listener) is the record `Machine`; a run is the list of its steps and its exit code.
pub mod Init
use Prim.Native.Char.{Char}
use Prim.Native.String
use cellarkeep_server.Prelude.{
  ℕ, String, Bool, true, false, Option, none, some, List, [], ◌∷◌, ◌≡◌, refl, ◌⊎◌, inl, inr, ap,
  ◌∙◌, string_eq, ◌==◌, if◌then◌else◌,
}
use cellarkeep_server.Config.{Config, load}
use cellarkeep_server.Store.Action.{Store, World}
use cellarkeep_server.Api.Router.{Operation}
use cellarkeep_server.Api.App.{Deps, App, Panic, new_router}
use cellarkeep_server.Config.Load.{IsReady, load_lem}

-- How the machine answers: with an error, or not.
pub record Machine : Type 0 where
  pub getenv : String → String
  -- %q
  pub quote : String → String
  -- pgxpool.New on a connection string
  pub new_pool : String → Option String
  -- migrations.Up
  pub up : String → Option String
  -- http.Server.ListenAndServe on an address, http.ErrServerClosed being none
  pub listen_and_serve : String → Option String
  -- what NewRouter reads besides the settings: GetSwagger, the YAML and JSON libraries, the database's ping,
  -- store.New of the pool, unicode.ToLower and the decoy hash
  pub get_swagger : String ⊎ Option (List Operation)
  pub unmarshal : String ⊎ String
  pub marshal : String → String ⊎ String
  pub ping : World → Option String
  pub store : Store
  pub to_lower : Char → Char
  pub decoy_hash : String

pub data Step : Type 0 where
  opened : String → Step
  migrated : Step
  listened : String → Step
  closed : Step
  -- NewRouter with the settings
  routed : Config → Step

-- How a command ends: with a panic its defers run, and the program exits with the code 2.
pub data End : Type 0 where
  finished panicked : End
  failed : String → End

abbrev pub end_of : Option String → End
end_of none = finished
end_of (some e) = failed e

-- The steps of a command and its end.
abbrev pub Run : Type 0
Run = List Step × End

abbrev pub after : Step → Run → Run
after s (steps, e) = (s ∷ steps, e)

module _ (m : Machine) where
  -- From migrations.Up to the end, in both commands; the pool is closed by a defer.
  abbrev pub migrated_then : Config → Option String → Run → Run
  migrated_then c (some e) rest = (closed ∷ [], failed e)
  migrated_then c none rest = after migrated rest

  abbrev pub opened_then : Config → Option String → Run → Run
  opened_then c (some e) rest = ([], failed e)
  opened_then c none rest =
      after (opened c.database_url) (migrated_then c (m.up c.database_url) rest)

  abbrev pub deps : Config → Deps
  deps c = record {
    ping = m.ping;
    store = m.store;
    cfg = c;
    unmarshal = m.unmarshal;
    marshal = m.marshal;
  }

  abbrev pub router_then : Config → Panic ⊎ App → Run
  router_then c (inl p) = (closed ∷ [], panicked)
  router_then c (inr app) =
      (routed c ∷ listened c.addr ∷ closed ∷ [], end_of (m.listen_and_serve c.addr))

  abbrev pub serve_loaded : String ⊎ Config → Run
  serve_loaded (inl e) = ([], failed e)
  serve_loaded (inr c) =
      opened_then c (m.new_pool c.database_url)
        (router_then c (new_router m.to_lower m.decoy_hash (deps c) m.get_swagger))

  -- serve
  unfoldable pub serve : Run
  unfolding load
  serve = serve_loaded (load m.getenv)

  abbrev pub migrate_loaded : String ⊎ Config → Run
  migrate_loaded (inl e) = ([], failed e)
  migrate_loaded (inr c) = opened_then c (m.new_pool c.database_url) (closed ∷ [], finished)

  -- migrate
  unfoldable pub migrate : Run
  unfolding load
  migrate = migrate_loaded (load m.getenv)

  abbrev pub exit_code : Run → List Step × ℕ
  exit_code (steps, finished) = (steps, 0)
  exit_code (steps, failed e) = (steps, 1)
  exit_code (steps, panicked) = (steps, 2)

  -- main, by the arguments after the program's name
  unfoldable pub main : List String → List Step × ℕ
  unfolding serve migrate
  main [] = ([], 2)
  main (command ∷ args) = exit_code (
      if command == "serve"
      then serve
      else if command == "migrate"
      then migrate
      else ([], failed (String.◌++◌ "unknown command " (m.quote command))))

-- The steps of a server that came up on settings c.
abbrev pub served : Config → List Step
served c = opened c.database_url ∷ migrated ∷ routed c ∷ listened c.addr ∷ closed ∷ []

-- Whether a run got as far as listening.
abbrev pub listens : List Step → Bool
listens [] = false
listens (listened a ∷ steps) = true
listens (opened s ∷ steps) = listens steps
listens (migrated ∷ steps) = listens steps
listens (closed ∷ steps) = listens steps
listens (routed c ∷ steps) = listens steps

module _ (m : Machine) (c : Config) where
  migrated_then-listens :
      (u : Option String) (rest : Run)
      → listens (migrated_then m c u rest).0 ≡ true
      → (u ≡ none) × ((migrated_then m c u rest).0 ≡ migrated ∷ rest.0) × (listens rest.0 ≡ true)
  migrated_then-listens none (steps, e) h = (refl, refl, h)
  migrated_then-listens (some x) rest h = cc

  opened_then-listens :
      (o : Option String) (rest : Run)
      → listens (opened_then m c o rest).0 ≡ true
      → (o ≡ none)
        × (m.up c.database_url ≡ none)
        × ((opened_then m c o rest).0 ≡ opened c.database_url ∷ migrated ∷ rest.0)
        × (listens rest.0 ≡ true)
  opened_then-listens none rest h =
      let (fine, steps, on) = migrated_then-listens (m.up c.database_url) rest h in
      (refl, fine, ap (λ ss. opened c.database_url ∷ ss) steps, on)
  opened_then-listens (some x) rest h = cc

module _ (m : Machine) where
  router_then-listens :
      (c : Config) (r : Panic ⊎ App)
      → listens (router_then m c r).0 ≡ true
      → (app : App) × (r ≡ inr app)
        × ((router_then m c r).0 ≡ routed c ∷ listened c.addr ∷ closed ∷ [])
  router_then-listens c (inl p) h = cc
  router_then-listens c (inr app) h = (app, refl, refl)

  -- A run that listens loaded its settings, and ran as `served` says.
  abbrev pub IsServed : List Step → Type 0
  IsServed steps =
      (c : Config) × IsReady m.getenv c
      × (m.new_pool c.database_url ≡ none)
      × (m.up c.database_url ≡ none)
      × ((app : App) × (new_router m.to_lower m.decoy_hash (deps m c) m.get_swagger ≡ inr app))
      × (steps ≡ served c)

  serve_loaded-listens :
      (r : String ⊎ Config)
      → load m.getenv ≡ r
      → listens (serve_loaded m r).0 ≡ true
      → IsServed (serve_loaded m r).0
  serve_loaded-listens (inl e) l h = cc
  serve_loaded-listens (inr c) l h =
      let (pool, up, steps, on) = opened_then-listens m c (m.new_pool c.database_url) _ h in
      let (app, made, rest) = router_then-listens c _ on in
      (
        c,
        (load_lem m.getenv).0 c l,
        pool,
        up,
        (app, made),
        steps ∙ ap (λ ss. opened c.database_url ∷ migrated ∷ ss) rest,
      )

  migrate_loaded-quiet : (r : String ⊎ Config) → listens (migrate_loaded m r).0 ≡ true → ⊥
  migrate_loaded-quiet (inl e) h = cc
  migrate_loaded-quiet (inr c) h =
      let (_, _, _, on) = opened_then-listens m c (m.new_pool c.database_url) _ h in cc

  exit_code-listens :
      (r : Run)
      → (listens r.0 ≡ true → IsServed r.0)
      → listens (exit_code m r).0 ≡ true
      → IsServed (exit_code m r).0
  exit_code-listens (steps, finished) f = f
  exit_code-listens (steps, failed e) f = f
  exit_code-listens (steps, panicked) f = f

  chosen-listens :
      (is_serve is_migrate : Bool) (unknown : String)
      → let r =
          if is_serve then serve m else if is_migrate then migrate m else ([], failed unknown) in
        listens r.0 ≡ true → IsServed r.0
  unfolding serve migrate
  chosen-listens true is_migrate unknown h = serve_loaded-listens (load m.getenv) refl h
  chosen-listens false true unknown h = elim (migrate_loaded-quiet (load m.getenv) h) [ ]
  chosen-listens false false unknown h = cc

  -- Whatever the arguments, the program listens only with complete settings, on the address of the
  -- settings, after the pool was opened on their database, the migrations succeeded and NewRouter, given the
  -- same settings, returned without a panic; and it closes the pool at the end.
  pub main-listens :
      (args : List String) → listens (main m args).0 ≡ true → IsServed (main m args).0
  unfolding main
  main-listens [] h = cc
  main-listens (command ∷ args) h =
      exit_code-listens _ (chosen-listens (command == "serve") (command == "migrate") _) h
