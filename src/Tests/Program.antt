-- ===== src/Tests/Program.antt =====
-- Witnesses for the settings, the program's commands and overlapping registrations.
use cellarkeep_server.Prelude.{
  set_at, set_at-all, ℕ, ◌≤◌, String, some, none, [], ◌∷◌, inr, string_eq, nat_eq, ◌==◌, ◌≡◌, ◌≢◌,
  ◌⊎◌, refl, if◌then◌else◌, arith,
}
use cellarkeep_server.Domain.Users.Race.{
  Caller, Phase, started, found, inserted, holding, committed, Race, Reach, first, later, work,
  look, insert, claim, commit,
}
use cellarkeep_server.Domain.Users.Race.Invariant.{one_commits}
use cellarkeep_server.Domain.Users.Race.Atomic.{IsAtomic, Reach-IsAtomic}
use cellarkeep_server.Domain.Users.Race.Progress.{Goes, progress}
use cellarkeep_server.Domain.Users.{is_for_other, decoy, must_hash}
use cellarkeep_server.Api.Router.{check, new_route_table}
use cellarkeep_server.Api.App.{new_router}
use cellarkeep_server.Config.{Config, raw, load}
use cellarkeep_server.Config.Load.{IsReady, IsComplete, load_lem}
use cellarkeep_server.Config.Start.{Machine, main, serve, IsServed}
use cellarkeep_server.Config.Start.Init.{hashed, program, program-listens}
use cellarkeep_server.Store.Action.{draw}
use cellarkeep_server.Auth.Password.{hash_password}
use cellarkeep_server.Domain.Users.SetupRace.{
  made, SetupRace, SetupReach, fresh, next, work_setup, take_lock, count_none, create, finish,
}
use cellarkeep_server.Domain.Users.SetupRace.Serial.{setups_serial}
use cellarkeep_server.Tests.{empty_world, store1, invite1, admin1}

abbrev env1 : String → String
env1 key =
    if key == "DATABASE_URL"
    then "postgres://db"
    else if key == "SESSION_SECRET"
    then "0123456789abcdef0123456789abcdef"
    else if key == "CLIENT_ORIGIN"
    then "https://app/"
    else ""

abbrev machine1 : Machine
machine1 = record {
  getenv = env1;
  quote = λ s. s;
  new_pool = λ url. none;
  up = λ url. none;
  listen_and_serve = λ addr. none;
  get_swagger = inr (some []);
  unmarshal = inr "{}";
  marshal = λ doc. inr doc;
  ping = λ w. none;
  store = store1;
  to_lower = λ c. c;
  decoy_hash = "decoy";
}

load_lem_example :
    ((c : Config) → load env1 ≡ inr c → IsReady env1 c)
    × (IsComplete (raw env1) → (c : Config) × (load env1 ≡ inr c))
load_lem_example = load_lem env1

-- The salt of the decoy hash can be drawn.
program-listens_example :
    (h : String) × (decoy (λ e. "error") store1 empty_world ≡ inr h)
    × IsServed (hashed machine1 h) (program (λ e. "error") machine1 empty_world ("serve" ∷ [])).0
unfolding program main serve load new_router check new_route_table decoy must_hash hash_password
    draw
program-listens_example = program-listens (λ e. "error") machine1 empty_world ("serve" ∷ []) refl

-- Two callers with one invite.
abbrev two_callers : ℕ → Caller
two_callers t = record { now = 5; email = "c@d.org"; account = t }

-- The first of them has found the invite.
abbrev found_first : Race
found_first = record { row = invite1; lock = none; phase = set_at (λ t. started) 0 found }

abbrev inserted_first : Race
inserted_first = record { row = invite1; lock = none; phase = set_at found_first.phase 0 inserted }

abbrev held_first : Race
held_first = record { row = invite1; lock = some 0; phase = set_at inserted_first.phase 0 holding }

held_first-Reach : Reach "invite" two_callers invite1 held_first
unfolding is_for_other
held_first-Reach =
    later (later (later first (work 0 (look refl refl))) (work 0 insert)) (work 0 (claim refl))

-- The second has found it too.
abbrev both_found : Race
both_found = record { row = invite1; lock = none; phase = set_at inserted_first.phase 1 found }

both_found-Reach : Reach "invite" two_callers invite1 both_found
unfolding is_for_other
both_found-Reach =
    later (later (later first (work 0 (look refl refl))) (work 0 insert)) (work 1 (look refl refl))

abbrev Late : ℕ → Phase → Type 0
Late u q = 2 ≤ u → q ≡ started

both_found_idle : (u : ℕ) → Late u (both_found.phase u)
both_found_idle =
    set_at-all inserted_first.phase 1 found Late (λ h. ground arith)
      (λ u _.
        set_at-all found_first.phase 0 inserted Late (λ h. ground arith)
          (λ v _. set_at-all (λ t. started) 0 found Late (λ h. ground arith) (λ w _ h. refl) v) u)

-- The second waits for the address that the first has inserted.
progress_example : (u : ℕ) × Goes "invite" two_callers both_found u
progress_example =
    progress "invite" two_callers invite1 2 both_found 1 both_found-Reach both_found_idle
      (omega arith)

abbrev done_first : Race
done_first = record {
  row = record invite1 { used_at = some 5; used_by = some 0 };
  lock = none;
  phase = set_at held_first.phase 0 committed;
}

done_first-Reach : Reach "invite" two_callers invite1 done_first
done_first-Reach = later held_first-Reach (work 0 commit)

one_commits_example :
    (done_first.row.used_by ≡ some (two_callers 0).account)
    × ((u : ℕ) → done_first.phase u ≡ committed → u ≡ 0)
one_commits_example = one_commits "invite" two_callers invite1 done_first 0 done_first-Reach refl

Reach-IsAtomic_example : IsAtomic "invite" two_callers invite1 done_first
Reach-IsAtomic_example = Reach-IsAtomic "invite" two_callers invite1 done_first done_first-Reach

-- One of two setups has gone through, while the other waits.
abbrev set_up-SetupReach : (s : SetupRace) × SetupReach (λ t. admin1) s
set_up-SetupReach = (
  _,
  next
      (next (next (next fresh (work_setup 1 take_lock)) (work_setup 1 (count_none refl)))
        (work_setup 1 create))
      (work_setup 1 finish),
)

setups_serial_example :
    let s = set_up-SetupReach.0 in
    ((s.users ≡ []) × ((u : ℕ) → s.phase u ≢ made))
    ⊎ ((t : ℕ) × (s.users ≡ admin1 ∷ [])
        × (s.phase t ≡ made)
        × ((u : ℕ) → s.phase u ≡ made → u ≡ t))
setups_serial_example = setups_serial (λ t. admin1) set_up-SetupReach.0 set_up-SetupReach.1
