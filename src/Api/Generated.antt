-- ===== src/Api/Generated.antt =====
-- internal/api/server.gen.go: the generated server over any ServerInterface. HandlerWithOptions makes a
-- ServerInterfaceWrapper from its options, whose methods bind a path parameter and run the middlewares.
pub mod Wired
use Prim.Native.String
use cellarkeep_server.Prelude.{ℤ, String, Option, none, some, List, [], ◌∷◌}
use cellarkeep_server.Store.Model.{Uuid}
use cellarkeep_server.Http.{Response, Handler, plain, write_header}
use cellarkeep_server.Api.Types.{
  SetupRequest, Credentials, RegisterRequest, ChangePasswordRequest, InviteCreate, VesselInput,
  IngredientInput, StockAdjust, Decoded, Reply,
}
use cellarkeep_server.Api.Call.{Param, bound, misformed, Call}
use cellarkeep_server.Api.Handlers.{Server}

abbrev pub Next : Type 0
Next = Handler Server Reply

abbrev pub Middleware : Type 0
Middleware = Next → Next

-- The error types of parameters, with the text of the error inside.
pub data ParamError : Type 0 where
  unescaped_cookie_param unmarshaling_param required_header invalid_param_format :
      (name err : String) → ParamError
  required_param : (name : String) → ParamError
  too_many_values_for_param : (name : String) (count : ℤ) → ParamError

-- The methods Error; `print` is %d.
unfoldable pub error_text : (print : ℤ → String) → ParamError → String
error_text print (unescaped_cookie_param name err) =
    String.◌++◌ "error unescaping cookie parameter '" (String.◌++◌ name "'")
error_text print (unmarshaling_param name err) =
    String.◌++◌ "Error unmarshaling parameter " (String.◌++◌ name (String.◌++◌ " as JSON: " err))
error_text print (required_param name) =
    String.◌++◌ "Query argument " (String.◌++◌ name " is required, but not found")
error_text print (required_header name err) =
    String.◌++◌ "Header parameter " (String.◌++◌ name " is required, but not found")
error_text print (invalid_param_format name err) =
    String.◌++◌ "Invalid format for parameter " (String.◌++◌ name (String.◌++◌ ": " err))
error_text print (too_many_values_for_param name count) =
    String.◌++◌ "Expected one value for " (String.◌++◌ name (String.◌++◌ ", got " (print count)))

-- The methods Unwrap, which two of the types do not have.
unfoldable pub unwrap : ParamError → Option String
unwrap (unescaped_cookie_param name err) = some err
unwrap (unmarshaling_param name err) = some err
unwrap (required_header name err) = some err
unwrap (invalid_param_format name err) = some err
unwrap (required_param name) = none
unwrap (too_many_values_for_param name count) = none

-- One method for each operation; what the handler decodes from the body is its first argument.
pub record ServerInterface : Type 0 where
  pub auth_login : Decoded Credentials → Next
  pub auth_logout : Next
  pub auth_me : Next
  pub auth_change_password : Decoded ChangePasswordRequest → Next
  pub auth_register : Decoded RegisterRequest → Next
  pub auth_setup : Decoded SetupRequest → Next
  pub auth_status : Next
  pub create_ingredient : Decoded IngredientInput → Next
  pub list_inventory : Next
  pub adjust_stock : Uuid → Decoded StockAdjust → Next
  pub list_invites : Next
  pub create_invite : Option (Decoded InviteCreate) → Next
  pub preview_invite : String → Next
  pub revoke_invite : Uuid → Next
  pub list_members : Next
  pub list_vessels : Next
  pub create_vessel : Decoded VesselInput → Next
  pub delete_vessel : Uuid → Next
  pub update_vessel : Uuid → Decoded VesselInput → Next

abbrev not_implemented : Next
not_implemented ctx r s = (write_header 501, s)

-- Unimplemented
abbrev pub unimplemented : ServerInterface
unimplemented = record {
  auth_login = λ body. not_implemented;
  auth_logout = not_implemented;
  auth_me = not_implemented;
  auth_change_password = λ body. not_implemented;
  auth_register = λ body. not_implemented;
  auth_setup = λ body. not_implemented;
  auth_status = not_implemented;
  create_ingredient = λ body. not_implemented;
  list_inventory = not_implemented;
  adjust_stock = λ id body. not_implemented;
  list_invites = not_implemented;
  create_invite = λ body. not_implemented;
  preview_invite = λ token. not_implemented;
  revoke_invite = λ id. not_implemented;
  list_members = not_implemented;
  list_vessels = not_implemented;
  create_vessel = λ body. not_implemented;
  delete_vessel = λ id. not_implemented;
  update_vessel = λ id body. not_implemented;
}

-- ChiServerOptions, but for the base URL and the router, which chi's routing takes.
pub record ChiServerOptions : Type 0 where
  pub middlewares : List Middleware
  pub error_handler_func : Option (ParamError → Next)

pub record ServerInterfaceWrapper : Type 0 where
  pub handler : ServerInterface
  pub handler_middlewares : List Middleware
  pub error_handler_func : ParamError → Next

-- http.Error with the status 400
abbrev pub bad_request : (print : ℤ → String) → ParamError → Next
bad_request print e ctx r s = (plain 400 (error_text print e), s)

abbrev pub or_else : {A : Type 0} → Option A → A → A
or_else none d = d
or_else (some a) d = a

-- The wrapper that HandlerWithOptions makes.
unfoldable pub new_wrapper :
    (print : ℤ → String) → ServerInterface → ChiServerOptions → ServerInterfaceWrapper
unfolding error_text
new_wrapper print si options = record {
  handler = si;
  handler_middlewares = options.middlewares;
  error_handler_func = or_else options.error_handler_func (bad_request print);
}

-- The loop at the end of a wrapper: the last middleware becomes the outermost.
abbrev pub through : List Middleware → Next → Next
through [] h = h
through (m ∷ ms) h = through ms (m h)

-- The binding of a path parameter in front of it.
abbrev pub binding : {A : Type 0} → ServerInterfaceWrapper → String → Param A → (A → Next) → Next
binding siw name (misformed e) f = siw.error_handler_func (invalid_param_format name e)
binding siw name (bound a) f = through siw.handler_middlewares (f a)

-- The wrapper's method for an operation. Here a parameter that does not bind has the error of the binding.
unfoldable pub wrapper_method : ServerInterfaceWrapper → Call → Next
wrapper_method siw (Call.auth_setup body) =
    through siw.handler_middlewares (siw.handler.auth_setup body)
wrapper_method siw (Call.auth_login body) =
    through siw.handler_middlewares (siw.handler.auth_login body)
wrapper_method siw Call.auth_logout = through siw.handler_middlewares siw.handler.auth_logout
wrapper_method siw Call.auth_me = through siw.handler_middlewares siw.handler.auth_me
wrapper_method siw (Call.auth_register body) =
    through siw.handler_middlewares (siw.handler.auth_register body)
wrapper_method siw (Call.auth_change_password body) =
    through siw.handler_middlewares (siw.handler.auth_change_password body)
wrapper_method siw Call.auth_status = through siw.handler_middlewares siw.handler.auth_status
wrapper_method siw Call.list_invites = through siw.handler_middlewares siw.handler.list_invites
wrapper_method siw (Call.create_invite body) =
    through siw.handler_middlewares (siw.handler.create_invite body)
wrapper_method siw (Call.revoke_invite id) = binding siw "id" id siw.handler.revoke_invite
wrapper_method siw (Call.preview_invite token) =
    binding siw "token" token siw.handler.preview_invite
wrapper_method siw Call.list_members = through siw.handler_middlewares siw.handler.list_members
wrapper_method siw Call.list_vessels = through siw.handler_middlewares siw.handler.list_vessels
wrapper_method siw (Call.create_vessel body) =
    through siw.handler_middlewares (siw.handler.create_vessel body)
wrapper_method siw (Call.delete_vessel id) = binding siw "id" id siw.handler.delete_vessel
wrapper_method siw (Call.update_vessel id body) =
    binding siw "id" id (λ i. siw.handler.update_vessel i body)
wrapper_method siw (Call.create_ingredient body) =
    through siw.handler_middlewares (siw.handler.create_ingredient body)
wrapper_method siw Call.list_inventory = through siw.handler_middlewares siw.handler.list_inventory
wrapper_method siw (Call.adjust_stock id body) =
    binding siw "ingredientId" id (λ i. siw.handler.adjust_stock i body)
