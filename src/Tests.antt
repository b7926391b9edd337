-- ===== src/Tests.antt =====
-- A concrete runtime, a few concrete worlds and a concrete router for the tests.
pub mod Limits
pub mod Accounts
pub mod Members
pub mod Stock
pub mod Dates
pub mod Enums
pub mod Schedule
pub mod Access
pub mod Requests
pub mod Events
pub mod Program
use Prim.Native.String
use Prim.Native.Char.{Char}
use cellarkeep_server.Prelude.{
  ℕ, ◌+◌, ◌*◌, ◌/◌, ◌-◌, String, Bool, true, false, Option, none, some, List, [], ◌∷◌, length,
  nat_eq, ◌==◌, ltb, leb, refl, if◌then◌else◌,
}
use cellarkeep_server.Store.Model.{
  User, Session, Invite, Vessel, Batch, InventoryItem, Ingredient, Tables,
}
use cellarkeep_server.Store.Action.{up, Floats, Runtime, Store, World}
use cellarkeep_server.Store.Healthy.{IsHealthy}

-- Whole numbers in the place of floats.
abbrev pub whole : Floats
whole = record {
  add = λ a b. a + b;
  sub = λ a b. a - b;
  mul = λ a b. a * b;
  div = λ a b. a / b;
  min = λ a b. if ltb a b then a else b;
  max = λ a b. if ltb a b then b else a;
  lt = ltb;
  le = leb;
  round = λ a. a;
  widen = λ a. a;
  narrow = λ a. a;
  of_ℕ = λ n. n;
}

-- A key of 32 bytes.
abbrev pub key32 : List ℕ
key32 =
    1 ∷ 2 ∷ 3 ∷ 4 ∷ 5 ∷ 6 ∷ 7 ∷ 8 ∷ 1 ∷ 2 ∷ 3 ∷ 4 ∷ 5 ∷ 6 ∷ 7 ∷ 8 ∷ 1 ∷ 2 ∷ 3 ∷ 4 ∷ 5 ∷ 6 ∷ 7 ∷ 8
    ∷ 1 ∷ 2 ∷ 3 ∷ 4 ∷ 5 ∷ 6 ∷ 7 ∷ 8 ∷ []

abbrev pub salt1 : List ℕ
salt1 = 9 ∷ []

abbrev pub encode : List ℕ → String
encode b = if length b == 32 then "key" else "salt"

-- A runtime whose database always answers, whose ids are 100 and up, and whose clock is the tick.
abbrev pub runtime1 : Runtime
runtime1 = record {
  link = λ t. up;
  now = λ t. t;
  uuid = λ t. 100 + t;
  random = λ t n. some salt1;
  to_lower = λ s. s;
  trim_space = λ s. s;
  to_lower_rune = λ c. c;
  byte_prefix = λ s n. s;
  split_host_port = λ s. some s;
  base64_url = λ b. "token";
  base64_std = encode;
  decode_base64_std = λ s. if String.len s == 3 then some key32 else some salt1;
  id_key = λ pw salt t m p n. key32;
  print_params = λ m t p. "p";
  scan_params = λ s. some (64 * 1024, 3, 1);
  constant_time_compare = λ a b. length a == length b;
  text_lt = λ a b. false;
  floats = whole;
}

abbrev pub store1 : Store
store1 = record { runtime = runtime1; tx = false }

pub store1-IsHealthy : IsHealthy store1
store1-IsHealthy = record { linked = λ t. refl; bytes = λ t n. salt1; drawn = λ t n. refl }

abbrev pub no_tables : Tables
no_tables = record {
  users = [];
  sessions = [];
  invites = [];
  vessels = [];
  ingredients = [];
  inventory_items = [];
  batches = [];
  batch_events = [];
}

abbrev pub empty_world : World
empty_world = record { tables = no_tables; tick = 0 }

abbrev pub admin1 : User
admin1 = record {
  id = 1;
  email = "ada@example.org";
  name = "Ada";
  password_hash = "$argon2id$v=19$p$salt$key";
  role = "admin";
  created_at = 0;
}

abbrev pub session1 : Session
session1 = record { id = "sid"; user_id = 1; expires_at = 1000; created_at = 0 }

abbrev pub invite1 : Invite
invite1 = record {
  id = 7;
  token = "invite";
  email = none;
  created_by = 1;
  created_at = 0;
  expires_at = 1000;
  used_at = none;
  used_by = none;
  revoked_at = none;
}

abbrev pub vessel1 : Vessel
vessel1 = record {
  id = 3;
  name = "Tank";
  kind = "tank";
  capacity_l = 20;
  notes = none;
  created_at = 0;
}

abbrev pub item1 : InventoryItem
item1 = record { id = 5; ingredient_id = 4; quantity = 2; cost_per_unit = none; updated_at = 0 }

abbrev pub ingredient1 : Ingredient
ingredient1 = record { id = 4; name = "Yeast"; category = "yeast"; unit = "g" }

-- One administrator, with a session and an open invite, a vessel and an ingredient in stock.
abbrev pub world1 : World
world1 = record {
  tables = record {
    users = admin1 ∷ [];
    sessions = session1 ∷ [];
    invites = invite1 ∷ [];
    vessels = vessel1 ∷ [];
    ingredients = ingredient1 ∷ [];
    inventory_items = item1 ∷ [];
    batches = [];
    batch_events = [];
  };
  tick = 1;
}

abbrev pub member2 : User
member2 = record {
  id = 2;
  email = "bob@example.org";
  name = "Bob";
  password_hash = "$argon2id$v=19$p$salt$key";
  role = "member";
  created_at = 0;
}

abbrev pub session2 : Session
session2 = record { id = "sid2"; user_id = 2; expires_at = 1000; created_at = 0 }

-- A second account with a session.
abbrev pub world2 : World
world2 = record {
  tables = record world1.tables {
    users = member2 ∷ admin1 ∷ [];
    sessions = session2 ∷ session1 ∷ [];
  };
  tick = 1;
}
