-- ===== src/Auth/AccessExamples.antt =====
-- Requests and tokens on which the theorems apply.
use fgvcplateform_public.Base.{
  ◌≡◌, ◌≤◌, refl, String, true, false, none, some, [], ◌∷◌, arith, byte_len, length, ◌==◌,
  if◌then◌else◌, str_eq,
}
use fgvcplateform_public.Base.Assoc.{lookup}
use fgvcplateform_public.Base.Paths.{join_on, has_rune, has_prefix}
use fgvcplateform_public.Auth.{Session, credentials, ok, err}
use fgvcplateform_public.Auth.Accounts.{find_session}
use fgvcplateform_public.Auth.Access.{
  allowed, annotator_allowed, is_public, is_service_path, Request, served, protect,
}
use fgvcplateform_public.Auth.Guarded.{IsAuthorized, protect-IsAuthorized}
use fgvcplateform_public.Auth.Roles.{IsLimited, allowed-IsLimited}
use fgvcplateform_public.Auth.Delegation.{Claims, Codec, sign, agent_assertions, grant_claims}
use fgvcplateform_public.Auth.Granted.{IsCarried, IsUsable, agent_session-agent_assertions}
use fgvcplateform_public.Auth.Examples.{key_of, ann, store}

abbrev anns_session : Session
anns_session = record { user_id = "u"; user = ann.user; csrf_token = "x" }

abbrev review : Request
review = record {
  method = "POST";
  path = "/api/review-items";
  dispatched = false;
  bound = none;
  delegation = "";
  csrf = "x";
}

review_served : protect review (err credentials) (ok anns_session) ≡ served (some anns_session)
unfolding protect is_public is_service_path has_prefix allowed annotator_allowed
review_served = refl

protect-IsAuthorized_example :
    IsAuthorized review (err credentials) (ok anns_session) (some anns_session)
protect-IsAuthorized_example =
    protect-IsAuthorized review (err credentials) (ok anns_session) (some anns_session)
      review_served

review_allowed : allowed "annotator" "POST" "/api/review-items" ≡ true
unfolding allowed has_prefix annotator_allowed
review_allowed = refl

allowed-IsLimited_example : IsLimited "annotator" "POST" "/api/review-items"
allowed-IsLimited_example = allowed-IsLimited "annotator" "POST" "/api/review-items" review_allowed

-- 64 digits, as SHA-256 gives in hex
abbrev digits : String
digits = "0123456789abcdef0123456789abcdef0123456789abcdef0123456789abcdef"

abbrev tools_claims : Claims
tools_claims = record {
  actor = "u";
  role = "annotator";
  session = digits;
  purpose = "tools";
  expires = 1800;
}

-- claims are written as one byte, and a signature is another
abbrev codec : Codec
codec = record {
  mac = λ key text. 2 ∷ [];
  encode = λ bytes. if length bytes == 0 then "p" else "s";
  decode = λ text. if str_eq text "p" then some [] else some (2 ∷ []);
  marshal = λ c. [];
  unmarshal = λ bytes. some tools_claims;
  to_hex = λ hash. digits;
  of_hex = λ text. some "h";
}

carried : IsCarried codec (key_of 7) (grant_claims codec 0 "u" "annotator" "h")
unfolding has_rune
carried = record {
  payload = refl;
  no_dot = refl;
  signature = refl;
  no_dot_in_signature = refl;
  read_back = refl;
}

tokens_made :
    agent_assertions codec 0 (key_of 7) (some ("u", "annotator")) "h" ≡ some ("p.s", "p.s")
unfolding agent_assertions sign join_on
tokens_made = refl

digits_long : byte_len digits ≡ 64
unfolding byte_len
digits_long = refl

token_short : byte_len "p.s" ≤ 2048
unfolding byte_len
token_short = omega arith

catalog_inside : has_prefix "/api/agent-tools/catalog" "/api/agent-tools/" ≡ true
unfolding has_prefix
catalog_inside = refl

session_found : find_session 10 "h" store ≡ ok anns_session
unfolding find_session lookup
session_found = refl

agent_session-agent_assertions_example :
    IsUsable codec 10 (key_of 7) "/api/agent-tools/catalog" "p.s" anns_session store
agent_session-agent_assertions_example =
    agent_session-agent_assertions codec 0 10 (key_of 7) "u" "annotator" "h"
      "/api/agent-tools/catalog" "p.s" "p.s" anns_session store refl digits_long refl carried
      token_short tokens_made (omega arith) (omega arith) catalog_inside session_found refl
