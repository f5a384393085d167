-- ===== src/Web/Access.antt =====
-- The authentication, CSRF and content type checks of cmd/webui/internal/api/middleware.go. A request
-- is the parts that they read; each check passes it on or answers with an HTTP status.
pub mod Guarded
use ai_agents.Prelude.{
  if◌then◌else◌, ℕ, Bool, true, false, not, ◌&&◌, ◌||◌, Option, none, some, ◌∷◌, ◌==◌, eqb,
}
use Prim.Native.String.{String}
use Prim.Native.Char.{code}
use ai_agents.Prelude.{[]}

pub record Request : Type 0 where
  pub method : String
  pub path : String
  -- `SplitHostPort` succeeds and the host is a loopback address
  pub from_loopback : Bool
  -- what follows "Bearer " in the Authorization header, if it starts so
  pub bearer : Option String
  -- the key that sanitizeQueryMiddleware took from the query
  pub context_key : Option String
  pub query_key : String
  pub cookie : String
  pub htmx : Bool
  pub csrf_header : String
  pub json_content : Bool

pub data Answer : Type 0 where
  -- the key is set as a cookie if the flag is true
  pass : Bool → Answer
  refuse : ℕ → Answer

pub data Source : Type 0 where
  given : String → Source
  from_cookie : String → Source

abbrev pub token_of : Source → String
token_of (given t) = t
token_of (from_cookie t) = t

abbrev is_given : Source → Bool
is_given (given t) = true
is_given (from_cookie t) = false

abbrev starts_with : String → String → Bool
starts_with String.[] s = true
starts_with (String.◌∷◌ c p) String.[] = false
starts_with (String.◌∷◌ c p) (String.◌∷◌ d s) = eqb (code c) (code d) && starts_with p s

abbrev pub source_of : Option String → Option String → String → String → Source
source_of (some t) context_key query_key cookie = given t
source_of none (some k) query_key cookie = given k
source_of none none query_key cookie =
    if not (query_key == "") then given query_key else from_cookie cookie

abbrev pub source : Request → Source
source q = source_of q.bearer q.context_key q.query_key q.cookie

abbrev pub check_token : String → Source → Answer
check_token key s =
    if token_of s == ""
    then refuse 401
    else if not (token_of s == key)
    then refuse 401
    else pass (is_given s)

-- the paths without this check
unfoldable pub is_exempt : Request → Bool
is_exempt q =
    starts_with "/static/" q.path
    || (starts_with "/api/admin/" q.path || (q.path == "/api/health" && q.from_loopback))

unfoldable pub auth_middleware : String → Request → Answer
auth_middleware key q =
    if is_exempt q then pass false else if key == "" then pass false else check_token key (source q)

unfoldable pub admin_auth_middleware : String → Request → Answer
admin_auth_middleware key q = if key == "" then pass false else elim q.bearer [
  | none ↦ refuse 401
  | some t ↦ if not (t == key) then refuse 401 else pass false
]

abbrev pub is_read_only : String → Bool
is_read_only method = method == "GET" || (method == "HEAD" || method == "OPTIONS")

unfoldable pub csrf_middleware : String → Request → Answer
csrf_middleware token q =
    if is_read_only q.method
    then pass false
    else if not q.htmx
    then pass false
    else if not (q.csrf_header == token)
    then refuse 403
    else pass false

unfoldable pub content_type_middleware : Request → Answer
content_type_middleware q =
    if is_read_only q.method || q.method == "DELETE"
    then pass false
    else if q.htmx
    then pass false
    else if not q.json_content
    then refuse 415
    else pass false
