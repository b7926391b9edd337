-- ===== src/Api/Generated/Wired.antt =====
-- What NewRouter of internal/api/router.go gives the generated server, and what comes of it.
use Prim.Native.String
use cellarkeep_server.Prelude.{ℤ, String, Option, none, some, [], ◌∷◌, ◌≡◌, refl, sym, ap, ◌∙◌}
use cellarkeep_server.Http.{Principal, Request, problem, write_header}
use cellarkeep_server.Api.Call.{Param, bound, misformed, Call, routed}
use cellarkeep_server.Api.Router.{RouteTable, gate}
use cellarkeep_server.Api.Handlers.{
  Handlers, Server, auth_setup, auth_login, auth_logout, auth_me, auth_register,
  auth_change_password, auth_status, list_members,
}
use cellarkeep_server.Api.Handlers.Invites.{
  list_invites, create_invite, revoke_invite, preview_invite,
}
use cellarkeep_server.Api.Handlers.Vessels.{
  list_vessels, create_vessel, delete_vessel, update_vessel,
}
use cellarkeep_server.Api.Handlers.Stock.{create_ingredient, list_inventory, adjust}
use cellarkeep_server.Auth.Middleware.{middleware}
use cellarkeep_server.Api.Server.{config_of, lookups}
use cellarkeep_server.Api.Wrapper.{with_param, wrapped, respond}
use cellarkeep_server.Api.Generated.{
  Next, ParamError, error_text, ServerInterface, ChiServerOptions, new_wrapper, wrapper_method,
  binding, unimplemented,
}

-- The handlers as the server interface, which the type `handlers` implements.
abbrev pub handlers_interface : Handlers → ServerInterface
handlers_interface h = record {
  auth_login = λ body ctx r. auth_login h r.remote_addr body;
  auth_logout = λ ctx r. auth_logout h r.cookie;
  auth_me = λ ctx r. auth_me h ctx;
  auth_change_password = λ body ctx r. auth_change_password h ctx body;
  auth_register = λ body ctx r. auth_register h body;
  auth_setup = λ body ctx r. auth_setup h body;
  auth_status = λ ctx r. auth_status h;
  create_ingredient = λ body ctx r. create_ingredient h body;
  list_inventory = λ ctx r. list_inventory h;
  adjust_stock = λ id body ctx r. adjust h id body;
  list_invites = λ ctx r. list_invites h;
  create_invite = λ body ctx r. create_invite h ctx body;
  preview_invite = λ token ctx r. preview_invite h token;
  revoke_invite = λ id ctx r. revoke_invite h id;
  list_members = λ ctx r. list_members h;
  list_vessels = λ ctx r. list_vessels h;
  create_vessel = λ body ctx r. create_vessel h body;
  delete_vessel = λ id ctx r. delete_vessel h id;
  update_vessel = λ id body ctx r. update_vessel h id body;
}

-- The function that writes a problem for an error of a parameter.
abbrev pub invalid_request : (print : ℤ → String) → ParamError → Next
invalid_request print e ctx r s = (problem 400 "invalid request" (error_text print e), s)

abbrev pub router_options : (print : ℤ → String) → RouteTable → ChiServerOptions
router_options print t = record {
  middlewares = gate t ∷ [];
  error_handler_func = some (invalid_request print);
}

abbrev explained : {A : Type 0} → String → Param A → Param A
explained name (bound a) = bound a
explained name (misformed e) =
    misformed (String.◌++◌ "Invalid format for parameter " (String.◌++◌ name (String.◌++◌ ": " e)))

-- A call with the text of the InvalidParamFormatError in the place of the error of the binding.
abbrev pub described : Call → Call
described (Call.revoke_invite id) = Call.revoke_invite (explained "id" id)
described (Call.preview_invite token) = Call.preview_invite (explained "token" token)
described (Call.delete_vessel id) = Call.delete_vessel (explained "id" id)
described (Call.update_vessel id body) = Call.update_vessel (explained "id" id) body
described (Call.adjust_stock id body) = Call.adjust_stock (explained "ingredientId" id) body
described c = c

binding-with_param :
    {A : Type 0} (print : ℤ → String) (t : RouteTable) (si : ServerInterface) (name : String)
    (p : Param A) (f : A → Next)
    → binding (new_wrapper print si (router_options print t)) name p f
      ≡ with_param t (explained name p) f
unfolding new_wrapper with_param error_text
binding-with_param print t si name (bound a) f = refl
binding-with_param print t si name (misformed e) f = refl

wrapper_method-wrapped :
    (print : ℤ → String) (t : RouteTable) (h : Handlers) (c : Call)
    → wrapper_method (new_wrapper print (handlers_interface h) (router_options print t)) c
      ≡ wrapped t h (described c)
unfolding new_wrapper wrapped wrapper_method
wrapper_method-wrapped print t h (Call.auth_setup body) = refl
wrapper_method-wrapped print t h (Call.auth_login body) = refl
wrapper_method-wrapped print t h Call.auth_logout = refl
wrapper_method-wrapped print t h Call.auth_me = refl
wrapper_method-wrapped print t h (Call.auth_register body) = refl
wrapper_method-wrapped print t h (Call.auth_change_password body) = refl
wrapper_method-wrapped print t h Call.auth_status = refl
wrapper_method-wrapped print t h Call.list_invites = refl
wrapper_method-wrapped print t h (Call.create_invite body) = refl
wrapper_method-wrapped print t h Call.list_members = refl
wrapper_method-wrapped print t h Call.list_vessels = refl
wrapper_method-wrapped print t h (Call.create_vessel body) = refl
wrapper_method-wrapped print t h (Call.create_ingredient body) = refl
wrapper_method-wrapped print t h Call.list_inventory = refl
wrapper_method-wrapped print t h (Call.revoke_invite id) =
    binding-with_param print t (handlers_interface h) "id" id _
wrapper_method-wrapped print t h (Call.preview_invite token) =
    binding-with_param print t (handlers_interface h) "token" token _
wrapper_method-wrapped print t h (Call.delete_vessel id) =
    binding-with_param print t (handlers_interface h) "id" id _
wrapper_method-wrapped print t h (Call.update_vessel id body) =
    binding-with_param print t (handlers_interface h) "id" id _
wrapper_method-wrapped print t h (Call.adjust_stock id body) =
    binding-with_param print t (handlers_interface h) "ingredientId" id _

abbrev pub bare : ChiServerOptions
bare = record { middlewares = []; error_handler_func = none }

abbrev pub IsBound : {A : Type 0} → Param A → Type 0
IsBound (bound a) = Unit {0}
IsBound (misformed e) = ⊥

-- The path parameter of the call, if it has one, binds.
abbrev pub Binds : Call → Type 0
Binds (Call.revoke_invite id) = IsBound id
Binds (Call.preview_invite token) = IsBound token
Binds (Call.delete_vessel id) = IsBound id
Binds (Call.update_vessel id body) = IsBound id
Binds (Call.adjust_stock id body) = IsBound id
Binds _ = Unit {0}

-- Unimplemented without middlewares answers 501 to every call whose parameter binds.
wrapper_method-unimplemented :
    (print : ℤ → String) (c : Call)
    → Binds c
    → (ctx : Option Principal) (r : Request) (s : Server)
    → wrapper_method (new_wrapper print unimplemented bare) c ctx r s ≡ (write_header 501, s)
unfolding new_wrapper wrapper_method
wrapper_method-unimplemented print (Call.revoke_invite (bound id)) b ctx r s = refl
wrapper_method-unimplemented print (Call.preview_invite (bound token)) b ctx r s = refl
wrapper_method-unimplemented print (Call.delete_vessel (bound id)) b ctx r s = refl
wrapper_method-unimplemented print (Call.update_vessel (bound id) body) b ctx r s = refl
wrapper_method-unimplemented print (Call.adjust_stock (bound id) body) b ctx r s = refl
wrapper_method-unimplemented print (Call.revoke_invite (misformed e)) b ctx r s = absurd b
wrapper_method-unimplemented print (Call.preview_invite (misformed e)) b ctx r s = absurd b
wrapper_method-unimplemented print (Call.delete_vessel (misformed e)) b ctx r s = absurd b
wrapper_method-unimplemented print (Call.update_vessel (misformed e) body) b ctx r s = absurd b
wrapper_method-unimplemented print (Call.adjust_stock (misformed e) body) b ctx r s = absurd b
wrapper_method-unimplemented print _ b ctx r s = refl

routed-described : (c : Call) (r : Request) → routed (described c) r ≡ routed c r
routed-described (Call.revoke_invite id) r = refl
routed-described (Call.preview_invite token) r = refl
routed-described (Call.delete_vessel id) r = refl
routed-described (Call.update_vessel id body) r = refl
routed-described (Call.adjust_stock id body) r = refl
routed-described _ r = refl

-- HandlerWithOptions, given the handlers, the gate as the only middleware and the function that writes a
-- problem for an error, answers every request behind the authentication as the router answers the call in
-- which a parameter that does not bind has the text of the InvalidParamFormatError.
pub new_wrapper-respond :
    (print : ℤ → String) (t : RouteTable) (h : Handlers) (c : Call) (r : Request) (s : Server)
    → middleware
        (config_of h)
        (lookups h.store)
        (wrapper_method (new_wrapper print (handlers_interface h) (router_options print t)) c)
        (routed c r)
        s
      ≡ respond h t (described c) r s
unfolding respond
new_wrapper-respond print t h c r s =
    ap (λ x. middleware (config_of h) (lookups h.store) x (routed c r) s)
      (wrapper_method-wrapped print t h c)
    ∙ ap (λ q. middleware (config_of h) (lookups h.store) (wrapped t h (described c)) q s)
        (sym (routed-described c r))
