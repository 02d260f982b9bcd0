-- ===== src/Auth/Access.antt =====
-- auth/http.go: isPublic, isServicePath, allowed, Protect; auth/agent_tools.go: AgentToolAllowed.
-- Protect is a function from what it reads of a request to its answer.
use fgvcplateform_public.Base.{
  ℕ, String, Bool, true, false, not, ◌&&◌, ◌||◌, Option, none, some, str_eq, if◌then◌else◌,
  is_empty,
}
use fgvcplateform_public.Base.Paths.{has_prefix, has_suffix, trim_prefix}
use fgvcplateform_public.Auth.{Session, credentials, Result, ok, err, is_admin}

abbrev pub is_business : String → Bool
is_business role = str_eq role "business"

abbrev pub is_annotator : String → Bool
is_annotator role = str_eq role "annotator"

abbrev pub is_get : String → Bool
is_get method = str_eq method "GET"

abbrev pub is_post : String → Bool
is_post method = str_eq method "POST"

unfoldable pub agent_tool_allowed : String → String → Bool
agent_tool_allowed role name =
    if is_admin role || is_business role
    then true
    else is_annotator role
      && (str_eq name "datasets.list"
          || str_eq name "datasets.get_version"
          || str_eq name "models.list_versions"
          || str_eq name "models.get_version")

unfoldable pub is_public : String → Bool
is_public path =
    str_eq path "/api/health" || str_eq path "/api/auth/register" || str_eq path "/api/auth/login"

unfoldable pub is_service_path : String → Bool
is_service_path path =
    str_eq path "/api/internal/hardware/samples"
    || str_eq path "/api/internal/workers/register"
    || str_eq path "/api/internal/workers/heartbeat"
    || has_prefix path "/api/internal/deployments/"
    || has_prefix path "/api/annotation/internal/"

-- the tools of the assistant
unfoldable pub tools_allowed : String → String → String → Bool
tools_allowed role method path =
    if is_get method && str_eq path "/api/agent-tools/catalog"
    then is_business role || is_annotator role
    else if is_get method && has_prefix path "/api/agent-tools/operations/"
    then is_business role
    else if is_post method && has_prefix path "/api/agent-tools/invoke/"
    then agent_tool_allowed role (trim_prefix path "/api/agent-tools/invoke/")
    else if is_post method && has_prefix path "/api/agent-tools/approvals/"
    then is_business role
    else false

-- publish, retry and cancel of a publication
unfoldable pub is_registration : String → String → Bool
is_registration method path =
    is_post method
    && has_prefix path "/api/annotation/publications/"
    && (has_suffix path "/publish" || has_suffix path "/retry" || has_suffix path "/cancel")

-- what an annotator may do outside the tools
unfoldable pub annotator_allowed : String → String → Bool
annotator_allowed method path =
    if has_prefix path "/api/annotation/"
    then not (is_registration method path)
    else if has_prefix path "/api/review-items" || has_prefix path "/api/uploads/"
    then true
    else is_get method
      && (str_eq path "/api/datasets"
          || has_prefix path "/api/datasets/"
          || has_prefix path "/api/dataset-versions/"
          || has_prefix path "/api/abstention-policies"
          || has_prefix path "/api/feedback-items"
          || has_prefix path "/api/model-versions")

unfoldable pub allowed : String → String → String → Bool
allowed role method path =
    if is_admin role
    then true
    else if str_eq path "/api/auth/me" || str_eq path "/api/auth/logout"
    then true
    else if has_prefix path "/api/agent/"
    then is_business role
    else if has_prefix path "/api/agent-tools/"
    then tools_allowed role method path
    else if has_prefix path "/api/auth/"
        || has_prefix path "/swagger"
        || has_prefix path "/openapi/"
    then false
    else if str_eq path "/api/workers" || has_prefix path "/api/workers/"
    then is_business role && is_get method
    else if is_business role
    then not (has_prefix path "/api/annotation/")
    else if not (is_annotator role)
    then false
    else annotator_allowed method path

-- What Protect reads of a request: `dispatched` is the mark of an in-process request of the tool
-- bridge, `bound` the session of its context, `delegation` and `csrf` are headers.
pub record Request : Type 0 where
  pub method : String
  pub path : String
  pub dispatched : Bool
  pub bound : Option Session
  pub delegation : String
  pub csrf : String

-- The handler goes on, with the session that Protect puts in the context; or a status is answered.
pub data Answer : Type 0 where
  served : Option Session → Answer
  refused : ℕ → Answer

abbrev pub is_safe : String → Bool
is_safe method = str_eq method "GET" || str_eq method "HEAD" || str_eq method "OPTIONS"

-- the CSRF test, which a delegated request does not take
abbrev pub fails_csrf : Request → Session → Bool
fails_csrf r s =
    is_empty r.delegation
    && not (is_safe r.method)
    && (is_empty r.csrf || not (str_eq r.csrf s.csrf_token))

abbrev pub answered : Request → Result Session → Answer
answered r (err credentials) = refused 401
answered r (err e) = refused 503
answered r (ok s) =
    if not (allowed s.user.role r.method r.path)
    then refused 403
    else if fails_csrf r s
    then refused 403
    else Answer.served (some s)

abbrev pub dispatch : Request → Option Session → Answer
dispatch r none = refused 403
dispatch r (some s) =
    if not (allowed s.user.role r.method r.path) then refused 403 else Answer.served (some s)

-- `delegated` is what agentSession finds of the header and `own` what Session finds of the cookie.
unfoldable pub protect : Request → Result Session → Result Session → Answer
protect r delegated own =
    if is_public r.path || is_service_path r.path || str_eq r.path "/metrics"
    then Answer.served r.bound
    else if has_prefix r.path "/internal/"
    then refused 404
    else if r.dispatched
    then dispatch r r.bound
    else answered r (if not (is_empty r.delegation) then delegated else own)
