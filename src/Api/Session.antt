-- ===== src/Api/Session.antt =====
-- ValidateUserSession of pkg/api/api_validate_user_session.go. The JWT library and the secrets
-- backend are parameters: the secret that ReadSecret returns, and the claims of a valid token.
use webmesh_vdi.Prelude.{String, Bool, not, ◌&&◌, Option, none, some, if◌then◌else◌}
use text.Mathlib.Text.{◌==◌}
use webmesh_vdi.Rbac.Types.{User}
use webmesh_vdi.Api.Request.{Request}

-- The claims that the middleware and the later checks read.
pub record JwtClaims : Type 0 where
  pub user : User
  pub authorized : Bool

pub data SessionResult : Type 0 where
  next : JwtClaims → SessionResult
  no_token bad_secret unauthorized_token not_authorized : SessionResult

-- The header of the request, and the first value of the query argument if that is there. The header
-- is empty where it is missing.
unfoldable pub auth_token : String → Option String → String
auth_token header query =
    if header == "" then (elim query [ none ↦ "" | some key ↦ key ]) else header

unfoldable pub check_claims : Request → JwtClaims → SessionResult
check_claims r session =
    if not session.authorized && not (r.path == "/api/authorize") && not (r.method == "POST")
    then not_authorized
    else next session

-- From the reading of the signing secret on: DecodeAndVerifyJWT is `decode_and_verify`.
unfoldable pub verify_token :
    {Secret : Type 0}
    → Option Secret
    → (Secret → String → Option JwtClaims)
    → Request
    → String
    → SessionResult
verify_token none decode_and_verify r token = bad_secret
verify_token (some secret) decode_and_verify r token = elim (decode_and_verify secret token) [
  | none ↦ unauthorized_token
  | some session ↦ check_claims r session
]

unfoldable pub validate_user_session :
    {Secret : Type 0}
    → Option Secret
    → (Secret → String → Option JwtClaims)
    → Request
    → (header : String) (query : Option String) → SessionResult
validate_user_session read_secret decode_and_verify r header query =
    let token = auth_token header query in
    if token == "" then no_token else verify_token read_secret decode_and_verify r token
