-- ===== src/Api/Router/Table.antt =====
-- The start-up check of internal/api/router.go: what it passes, and what it then guarantees.
use Prim.Native.Char.{Char}
use Prim.Native.String
use cellarkeep_server.Prelude.{
  String, true, Option, none, some, List, [], ◌∷◌, string_eq, ◌≡◌, ◌≢◌, refl, arith, eq_iff, All,
  ◌∙◌,
}
use text.Mathlib.TextPositions.{eq_refl}
use cellarkeep_server.Prelude.Text.{trim_prefix-append}
use cellarkeep_server.Api.Router.{
  Operation, RouteTable, CheckError, base_path, route_key, lower_first, read, add_operation,
  add_operations, new_route_table, resolve, check_operation, check_operations, check, is_in,
  or_else,
}

-- What the gate relies on for an operation of the contract: its route resolves to its id, a known one.
abbrev pub Resolves : (Char → Char) → RouteTable → Operation → Type 0
Resolves low t op =
    (resolve t op.method (String.◌++◌ base_path op.path) ≡ lower_first low op.operation_id)
    × (is_in t.known (lower_first low op.operation_id) ≡ true)

check_operation_sound :
    (low : Char → Char) (t : RouteTable) (op : Operation)
    → check_operation low t op ≡ none
    → Resolves low t op
unfolding check_operation
check_operation_sound low t op h = ground (
  arith,
  eq_iff (resolve t op.method (String.◌++◌ base_path op.path)) (lower_first low op.operation_id),
)

or_else-none : (a b : Option CheckError) → or_else a b ≡ none → (a ≡ none) × (b ≡ none)
or_else-none none b h = (refl, h)
or_else-none (some e) b h = cc

check_operations_sound :
    (low : Char → Char) (t : RouteTable) (ops : List Operation)
    → check_operations low t ops ≡ none
    → All (Resolves low t) ops
unfolding check_operations
check_operations_sound low t [] h = tt
check_operations_sound low t (op ∷ ops) h =
    let (here, later) = or_else-none (check_operation low t op) (check_operations low t ops) h in
    (check_operation_sound low t op here, check_operations_sound low t ops later)

-- The keys of the contract's routes are distinct, and every operation has an id.
abbrev pub key : Operation → String
key op = route_key op.method op.path

abbrev pub IsContract : List Operation → Type 0
IsContract [] = Unit
IsContract (op ∷ ops) =
    (op.operation_id ≢ "") × All (λ (x : Operation). key x ≢ key op) ops × IsContract ops

module _ (low : Char → Char) (t : RouteTable) (op : Operation) where
  read-add_operation :
      (k : String) → key op ≢ k → read k (add_operation low t op).by_route ≡ read k t.by_route
  unfolding add_operation read
  read-add_operation k ne = ground (arith, eq_iff (key op) k)

  is_in-add_operation :
      (id : String) → is_in t.known id ≡ true → is_in (add_operation low t op).known id ≡ true
  unfolding add_operation
  is_in-add_operation id h = ground arith

  read-add_operation_self :
      op.operation_id ≢ ""
      → read (key op) (add_operation low t op).by_route ≡ lower_first low op.operation_id
  unfolding add_operation read
  read-add_operation_self ne = ground (arith, eq_iff op.operation_id "", eq_refl (key op))

  is_in-add_operation_self :
      op.operation_id ≢ ""
      → is_in (add_operation low t op).known (lower_first low op.operation_id) ≡ true
  unfolding add_operation
  is_in-add_operation_self ne =
      ground (arith, eq_iff op.operation_id "", eq_refl (lower_first low op.operation_id))

-- An operation that comes later does not touch the route of one before it.
read-add_operations :
    (low : Char → Char) (t : RouteTable) (k : String) (ops : List Operation)
    → All (λ (x : Operation). key x ≢ k) ops
    → read k (add_operations low t ops).by_route ≡ read k t.by_route
unfolding add_operations
read-add_operations low t k [] h = refl
read-add_operations low t k (op ∷ ops) (ne, h) =
    read-add_operations low (add_operation low t op) k ops h ∙ read-add_operation low t op k ne

is_in-add_operations :
    (low : Char → Char) (t : RouteTable) (id : String) (ops : List Operation)
    → is_in t.known id ≡ true
    → is_in (add_operations low t ops).known id ≡ true
unfolding add_operations
is_in-add_operations low t id [] h = h
is_in-add_operations low t id (op ∷ ops) h =
    is_in-add_operations low (add_operation low t op) id ops (is_in-add_operation low t op id h)

resolve_path :
    (t : RouteTable) (op : Operation)
    → resolve t op.method (String.◌++◌ base_path op.path) ≡ read (key op) t.by_route
unfolding resolve
resolve_path t op = rw (trim_prefix-append base_path op.path)

add_operations-Resolves :
    (low : Char → Char) (t : RouteTable) (ops : List Operation)
    → IsContract ops
    → All (Resolves low (add_operations low t ops)) ops
unfolding add_operations
add_operations-Resolves low t [] c = tt
add_operations-Resolves low t (op ∷ ops) (named, apart, c) =
    let t' = add_operation low t op in
    (
      (
        resolve_path (add_operations low t' ops) op
            ∙ read-add_operations low t' (key op) ops apart
            ∙ read-add_operation_self low t op named,
        is_in-add_operations low t' _ ops (is_in-add_operation_self low t op named),
      ),
      add_operations-Resolves low t' ops c,
    )

check_operations_complete :
    (low : Char → Char) (t : RouteTable) (ops : List Operation)
    → IsContract ops
    → All (Resolves low t) ops
    → check_operations low t ops ≡ none
unfolding check_operations check_operation
check_operations_complete low t [] c h = refl
check_operations_complete low t (op ∷ ops) (named, apart, c) (r, h) = ground (
  arith,
  check_operations_complete low t ops c h,
  eq_iff op.operation_id "",
  eq_iff (resolve t op.method (String.◌++◌ base_path op.path)) (lower_first low op.operation_id),
)

-- The server starts on a contract whose routes are distinct and whose operations all have an id: the
-- check of the table that it gives finds nothing.
pub check_passes :
    (low : Char → Char) (ops : List Operation)
    → IsContract ops
    → check low (new_route_table low (some ops)) (some ops) ≡ none
unfolding check new_route_table
check_passes low ops c = check_operations_complete low _ ops c (add_operations-Resolves low _ ops c)

-- Whatever table passes the check, every operation of the contract resolves to its own id at the route
-- pattern that its registration has, and the id is known.
pub check_sound :
    (low : Char → Char) (t : RouteTable) (ops : List Operation)
    → check low t (some ops) ≡ none
    → All (Resolves low t) ops
unfolding check
check_sound low t ops h = check_operations_sound low t ops h
