-- ===== src/Api/Router/Gate.antt =====
-- What the gate of internal/api/router.go lets through.
use cellarkeep_server.Prelude.{
  String, Bool, true, false, not, ◌||◌, Option, none, some, string_eq, ◌==◌, ◌≡◌, ◌⊎◌, refl, arith,
  if◌then◌else◌, inl, inr, Bool-cases,
}
use cellarkeep_server.Http.{Request, Response, Principal, user, unset, Handler}
use cellarkeep_server.Auth.Middleware.{require_user, require_admin}
use cellarkeep_server.Api.Router.{
  RouteTable, is_in, public_ops, device_ops, admin_ops, resolve, gate_known, gate, is_device,
}

-- The access level of an operation.
pub data Level : Type 0 where
  unknown public any_caller admins users : Level

abbrev pub level_by : Bool → Bool → Bool → Level
level_by true d a = public
level_by false true a = any_caller
level_by false false true = admins
level_by false false false = users

abbrev pub level_known : String → Level
level_known op = level_by (is_in public_ops op) (is_in device_ops op) (is_in admin_ops op)

abbrev pub level : RouteTable → String → Level
level t op = if op == "" || not (is_in t.known op) then unknown else level_known op

-- Who may use a level: `user` is a signed-in account, `device` a device token.
abbrev pub permits : Level → Option Principal → Bool
permits unknown ctx = false
permits public ctx = true
permits l none = false
permits any_caller (some p) = elim p.kind [ unset ↦ false | _ ↦ true ]
permits admins (some p) = elim p.kind [ user ↦ p.role == "admin" | _ ↦ false ]
permits users (some p) = elim p.kind [ user ↦ true | _ ↦ false ]

-- A response that says 401 or 403, and nothing done.
abbrev pub Refuses : {S A : Type 0} → S → Response A × S → Type 0
Refuses s (r, s') = ((r.status ≡ 401) ⊎ (r.status ≡ 403)) × (s' ≡ s)

module _ {S A : Type 0} (next : Handler S A) (r : Request) (s : S) where
  -- What a level does with a caller: the handler, or a refusal that the caller deserves.
  abbrev pub Gated : Level → Option Principal → Response A × S → Type 0
  Gated l ctx out =
      ((permits l ctx ≡ true) × (out ≡ next ctx r s)) ⊎ ((permits l ctx ≡ false) × Refuses s out)

  require_user_lem : (ctx : Option Principal) → Gated users ctx (require_user next ctx r s)
  unfolding require_user
  require_user_lem none = ground arith
  require_user_lem (some p) = ground arith

  require_admin_lem : (ctx : Option Principal) → Gated admins ctx (require_admin next ctx r s)
  unfolding require_admin
  require_admin_lem none = ground arith
  require_admin_lem (some p) = ground arith

  device_or_user_lem :
      (ctx : Option Principal)
      → Gated any_caller ctx (if is_device ctx then next ctx r s else require_user next ctx r s)
  unfolding require_user
  device_or_user_lem none = ground arith
  device_or_user_lem (some p) = ground arith

  gate_known_lem :
      (op : String) (ctx : Option Principal)
      → Gated (level_known op) ctx (gate_known op next ctx r s)
  unfolding gate_known
  gate_known_lem op ctx = elim (Bool-cases (is_in public_ops op)) [
    | inl p ↦ rw p (inl (refl, refl))
    | inr p ↦ elim (Bool-cases (is_in device_ops op)) [
      | inl d ↦ rw (p, d) (device_or_user_lem ctx)
      | inr d ↦ elim (Bool-cases (is_in admin_ops op)) [
        | inl a ↦ rw (p, d, a) (require_admin_lem ctx)
        | inr a ↦ rw (p, d, a) (require_user_lem ctx)
      ]
    ]
  ]

-- A caller whom the level of the resolved operation permits reaches the handler, with the request and
-- the state as they are; any other is refused with 401 or 403, and nothing is done.
pub gate_lem :
    {S A : Type 0} (t : RouteTable) (next : Handler S A) (ctx : Option Principal) (r : Request)
    (s : S)
    → Gated next r s (level t (resolve t r.method r.pattern)) ctx (gate t next ctx r s)
unfolding gate
gate_lem t next ctx r s =
    let op = resolve t r.method r.pattern in
    elim (Bool-cases (op == "" || not (is_in t.known op))) [
      | inl u ↦ rw u (inr (refl, (inr refl, refl)))
      | inr k ↦ rw k (gate_known_lem next r s op ctx)
    ]
