-- ===== src/Login/Types.antt =====
-- What the login handlers of pkg/api take and answer: AuthResult and JWTClaims of
-- pkg/types/auth_types.go, LoginRequest and SessionResponse of pkg/types/api_requests.go.
use webmesh_vdi.Prelude.{ℕ, String, Bool, Option, none, some, List, [], ◌∷◌, if◌then◌else◌}
use text.Mathlib.Text.{◌==◌}
use webmesh_vdi.Prelude.Bytes.{Bytes, codes}
use webmesh_vdi.Rbac.Types.{UserRole, User}
use webmesh_vdi.Secrets.Store.{ReadResult}

-- The user of a result that redirects is not read.
pub record AuthResult : Type 0 where
  pub user : User
  pub redirect_url : String
  pub extra : List (String × String)
  pub refresh_not_supported : Bool

-- The field Data is `extra`; the times are in seconds.
pub record TokenClaims : Type 0 where
  pub user : User
  pub authorized : Bool
  pub renewable : Bool
  pub extra : List (String × String)
  pub expires_at : ℕ
  pub issued_at : ℕ

pub record LoginRequest : Type 0 where
  pub username : String
  pub password : String
  pub state : String

pub record SessionResponse : Type 0 where
  pub token : String
  pub expires_at : ℕ
  pub renewable : Bool
  pub user : User
  pub authorized : Bool
  pub state : String

pub record MfaResponse : Type 0 where
  pub enabled : Bool
  pub verified : Bool
  pub provisioning_uri : String

-- What a handler writes: an error of one of three statuses, a session with the refresh token of
-- its cookie, a redirect, or another body.
pub data Reply : Type 0 where
  api_error api_not_found : Reply
  api_forbidden : String → Reply
  session : Option String → SessionResponse → Reply
  found_redirect : String → Reply
  sign_in_at : String → String → Reply
  mfa_status : MfaResponse → Reply
  logged_out : Option String → Reply

-- The refresh tokens with the names of their users.
abbrev pub Tokens : Type 0
Tokens = List (String × String)

unfoldable pub lookup_token : String → Tokens → Option String
lookup_token t [] = none
lookup_token t ((k, v) ∷ ts) = if k == t then some v else lookup_token t ts

unfoldable pub delete_token : String → Tokens → Tokens
delete_token t [] = []
delete_token t ((k, v) ∷ ts) = if k == t then delete_token t ts else (k, v) ∷ delete_token t ts

unfoldable pub put_token : String → String → Tokens → Tokens
unfolding delete_token
put_token t name ts = (t, name) ∷ delete_token t ts

abbrev pub jwt_secret_key : Bytes
jwt_secret_key = codes "jwtSecret"

abbrev pub otp_users_secret_key : Bytes
otp_users_secret_key = codes "otpUsers"

abbrev pub refresh_tokens_secret_key : Bytes
refresh_tokens_secret_key = codes "refreshTokens"

abbrev pub user_anonymous : String
user_anonymous = "anonymous"

-- The cluster as the handlers read it, and the libraries: the signing of claims with a secret,
-- the one-time password of a secret at a time in seconds, and the bytes of a text.
pub record Deployment : Type 0 where
  pub anonymous_allowed : Bool
  pub launch_templates_role : UserRole
  pub is_using_oidc_auth : Bool
  pub token_duration : ℕ
  pub sign : Bytes → TokenClaims → Option String
  pub totp_at : Bytes → ℕ → String
  pub bytes_of : String → Bytes

-- One request's surroundings: the clock, in nanoseconds, which stands still meanwhile, the next
-- random token, whether Lock(10) is given, and the answers of the authentication provider.
pub record Env : Type 0 where
  pub now : ℕ
  pub new_uuid : String
  pub lock_ok : Bool
  pub authenticate : LoginRequest → Option AuthResult
  pub callback_ok : Bool
  pub get_user : String → ReadResult User
