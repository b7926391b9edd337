-- ===== src/Config/Start/Init.antt =====
-- The start of the program of cmd/cellarkeep/main.go: the package domain hashes its decoy password before
-- main runs.
use cellarkeep_server.Prelude.{ℕ, String, true, List, [], ◌≡◌, refl, ◌⊎◌, inl, inr}
use cellarkeep_server.Store.Action.{Error, World}
use cellarkeep_server.Domain.Users.{decoy}
use cellarkeep_server.Config.Start.{Machine, Step, main, listens, IsServed, main-listens}

abbrev pub hashed : Machine → String → Machine
hashed m h = record m { decoy_hash = h }

abbrev pub initialized : Machine → List String → String ⊎ String → List Step × ℕ
initialized m args (inl panic) = ([], 2)
initialized m args (inr h) = main (hashed m h) args

-- The whole program. A panic of the initialization exits with the code 2.
unfoldable pub program : (describe : Error → String) → Machine → World → List String → List Step × ℕ
unfolding decoy main
program describe m w args = initialized m args (decoy describe m.store w)

initialized-listens :
    (m : Machine) (args : List String) (d : String ⊎ String)
    → listens (initialized m args d).0 ≡ true
    → (h : String) × (d ≡ inr h) × IsServed (hashed m h) (initialized m args d).0
initialized-listens m args (inl panic) on = cc
initialized-listens m args (inr h) on = (h, refl, main-listens (hashed m h) args on)

-- Whatever the arguments, the program listens only if the decoy password was hashed, with complete settings,
-- on the address of the settings, after the pool was opened on their database, the migrations succeeded and
-- NewRouter, given the same settings and the decoy hash, returned without a panic; and it closes the pool at
-- the end.
pub program-listens :
    (describe : Error → String) (m : Machine) (w : World) (args : List String)
    → listens (program describe m w args).0 ≡ true
    → (h : String) × (decoy describe m.store w ≡ inr h)
      × IsServed (hashed m h) (program describe m w args).0
unfolding program
program-listens describe m w args on = initialized-listens m args (decoy describe m.store w) on
