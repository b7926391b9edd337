-- ===== src/Http.antt =====
-- The requests and responses of net/http, as far as the server reads and writes them, and the problem
-- responses of internal/api/problem.go and internal/auth/middleware.go.
use cellarkeep_server.Prelude.{
  ℤ, pos, negsuc, Bool, true, not, ℕ, String, Option, none, some, List, [], ◌∷◌,
}
use cellarkeep_server.Store.Model.{Uuid, Time}

-- A request after routing. A header that is absent reads as the empty text; `cookie` is the value of
-- the ck_session cookie; `pattern` is the chi route pattern that matched.
pub record Request : Type 0 where
  pub method : String
  pub authorization : String
  pub origin : String
  pub cookie : Option String
  pub remote_addr : String
  pub pattern : String

-- http.Cookie with the fields that internal/auth/session.go sets; an unset Expires is none, and a MaxAge
-- of -1 orders the client to drop the cookie.
pub data SameSite : Type 0 where
  default_mode lax_mode strict_mode none_mode : SameSite

pub record Cookie : Type 0 where
  pub name : String
  pub value : String
  pub path : String
  pub expires : Option Time
  pub max_age : ℤ
  pub http_only : Bool
  pub secure : Bool
  pub same_site : SameSite

abbrev pub cookie_name : String
cookie_name = "ck_session"

-- SetSessionCookie
abbrev pub set_session_cookie : String → Time → Bool → Cookie
set_session_cookie id expires insecure = record {
  name = cookie_name;
  value = id;
  path = "/";
  expires = some expires;
  max_age = pos 0;
  http_only = true;
  secure = not insecure;
  same_site = lax_mode;
}

-- ClearSessionCookie
abbrev pub clear_session_cookie : Bool → Cookie
clear_session_cookie insecure = record {
  name = cookie_name;
  value = "";
  path = "/";
  expires = none;
  max_age = negsuc 0;
  http_only = true;
  secure = not insecure;
  same_site = lax_mode;
}

-- A response: its status, its Set-Cookie headers and its body, which for a problem is its title and
-- its detail.
pub data Body (A : Type 0) : Type 0 where
  nothing : Body A
  problem_body : String → String → Body A
  json : A → Body A
  plain_text : String → Body A

pub record Response (A : Type 0) : Type 0 where
  pub status : ℕ
  pub cookies : List Cookie
  pub body : Body A

-- problem, writeProblem
abbrev pub problem : {A : Type 0} → ℕ → String → String → Response A
problem status title detail = record {
  status = status;
  cookies = [];
  body = problem_body title detail;
}

abbrev pub write_json : {A : Type 0} → ℕ → A → Response A
write_json status v = record { status = status; cookies = []; body = json v }

-- w.WriteHeader with no body
abbrev pub write_header : {A : Type 0} → ℕ → Response A
write_header status = record { status = status; cookies = []; body = nothing }

-- http.Error
abbrev pub plain : {A : Type 0} → ℕ → String → Response A
plain status text = record { status = status; cookies = []; body = plain_text text }

-- http.SetCookie before the rest of a response.
abbrev pub with_cookie : {A : Type 0} → Cookie → Response A → Response A
with_cookie c r = record r { cookies = c ∷ r.cookies }

-- auth.Principal. A request without a principal reads the zero value, whose kind is neither.
pub data PrincipalKind : Type 0 where
  unset user device : PrincipalKind

pub record Principal : Type 0 where
  pub kind : PrincipalKind
  pub user_id : Uuid
  pub role : String
  pub device_id : Uuid

abbrev pub zero_principal : Principal
zero_principal = record { kind = unset; user_id = 0; role = ""; device_id = 0 }

-- `p, _ := auth.FromContext(ctx)`
abbrev pub from_context : Option Principal → Principal
from_context none = zero_principal
from_context (some p) = p

-- An http.Handler over a server state: the context holds at most a principal.
abbrev pub Handler : Type 0 → Type 0 → Type 0
Handler S A = Option Principal → Request → S → Response A × S
