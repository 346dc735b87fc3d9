-- ===== src/Login/Handlers.antt =====
-- PostLogin, PostAuthorize, GetRefreshToken and PostLogout of pkg/api. The request object of a
-- handler is the one that the decoder has stored.
use webmesh_vdi.Prelude.{
  String, Bool, true, false, not, ◌&&◌, Option, none, some, [], ◌∷◌, if◌then◌else◌,
}
use text.Mathlib.Text.{◌==◌}
use webmesh_vdi.Prelude.Bytes.{Bytes}
use webmesh_vdi.Rbac.Types.{User}
use webmesh_vdi.Secrets.{SecretRead, secret, secret_not_found, read_error}
use webmesh_vdi.Secrets.Store.{ReadResult, found, absent, unreadable, Backend}
use webmesh_vdi.Secrets.Engine.{Engine, read_secret}
use webmesh_vdi.Mfa.Manager.{MfaError, user_not_found, MfaResult, ok, err}
use webmesh_vdi.Mfa.Service.{get_user_mfa_status}
use webmesh_vdi.Api.Request.{AuthorizeRequest}
use webmesh_vdi.Login.Types.{
  AuthResult, TokenClaims, LoginRequest, Reply, api_error, api_forbidden, found_redirect,
  sign_in_at, logged_out, Tokens, otp_users_secret_key, user_anonymous, Deployment, Env,
}
use webmesh_vdi.Login.Tokens.{seconds, lookup_refresh_token, return_new_jwt}

-- IsUserNotFoundError of pkg/util/errors/auth.go
unfoldable pub is_user_not_found_error : MfaError → Bool
is_user_not_found_error user_not_found = true
is_user_not_found_error _ = false

abbrev pub as_secret_read : ReadResult Bytes → SecretRead
as_secret_read (found v) = secret v
as_secret_read absent = secret_not_found
as_secret_read unreadable = read_error

-- The result for the anonymous user.
unfoldable pub anonymous_result : Deployment → AuthResult
anonymous_result d = record {
  user = record { name = user_anonymous; roles = d.launch_templates_role ∷ [] };
  redirect_url = "";
  extra = [];
  refresh_not_supported = false;
}

-- The result that the OTP of a session is exchanged with.
unfoldable pub session_result : TokenClaims → AuthResult
session_result claims = record {
  user = claims.user;
  redirect_url = "";
  extra = [];
  refresh_not_supported = not claims.renewable;
}

unfoldable pub refreshed_result : User → AuthResult
refreshed_result user = record {
  user = user;
  redirect_url = "";
  extra = [];
  refresh_not_supported = false;
}

module _ {B : Type 0} (backend : Backend B Tokens) (d : Deployment) where
  -- GetUserMFAStatus over the engine.
  unfoldable pub read_mfa_status :
      Env → String → Engine B Tokens → MfaResult (Bytes × Bool) × Engine B Tokens
  read_mfa_status env name e =
      let (r, e') = read_secret backend otp_users_secret_key false (seconds env) e in
      (get_user_mfa_status (as_secret_read r) (d.bytes_of name), e')

  unfoldable pub by_mfa_status :
      Env
      → AuthResult
      → String
      → MfaResult (Bytes × Bool) × Engine B Tokens
      → Reply × Engine B Tokens
  by_mfa_status env result state (ok (otp_secret, verified), e) =
      if not verified
      then return_new_jwt backend d env result true state e
      else return_new_jwt backend d env result false state e
  by_mfa_status env result state (err cause, e) =
      if not (is_user_not_found_error cause)
      then (api_error, e)
      else return_new_jwt backend d env result true state e

  -- checkMFAAndReturnJWT
  unfoldable pub check_mfa_and_return_jwt :
      Env → AuthResult → String → Engine B Tokens → Reply × Engine B Tokens
  unfolding by_mfa_status
  check_mfa_and_return_jwt env result state e =
      by_mfa_status env result state (read_mfa_status env result.user.name e)

  -- The POST of PostLogin once the provider has answered.
  unfoldable pub authenticated :
      Env → LoginRequest → Option AuthResult → Engine B Tokens → Reply × Engine B Tokens
  authenticated env req none e =
      if req.username == user_anonymous && d.anonymous_allowed
      then return_new_jwt backend d env (anonymous_result d) true req.state e
      else (api_forbidden "Invalid credentials", e)
  authenticated env req (some result) e =
      if not (result.redirect_url == "")
      then (sign_in_at result.redirect_url req.state, e)
      else check_mfa_and_return_jwt env result req.state e

  unfoldable pub post_login : Env → LoginRequest → Engine B Tokens → Reply × Engine B Tokens
  unfolding authenticated
  post_login env req e = authenticated env req (env.authenticate req) e

  -- The GET of PostLogin, the second phase of a redirect.
  unfoldable pub login_callback : Env → Engine B Tokens → Reply × Engine B Tokens
  login_callback env e = (if env.callback_ok then found_redirect "/#/login" else api_error, e)

  unfoldable pub check_otp :
      Env
      → TokenClaims
      → AuthorizeRequest
      → MfaResult (Bytes × Bool) × Engine B Tokens
      → Reply × Engine B Tokens
  check_otp env claims req (err cause, e) =
      if not (is_user_not_found_error cause)
      then (api_error, e)
      else return_new_jwt backend d env (session_result claims) true req.state e
  check_otp env claims req (ok (otp_secret, verified), e) =
      if not verified
      then (api_forbidden "MFA token has not been verified", e)
      else if not (d.totp_at otp_secret (seconds env) == req.otp)
      then (api_forbidden "Invalid MFA Code", e)
      else return_new_jwt backend d env (session_result claims) true req.state e

  unfoldable pub post_authorize :
      Env → TokenClaims → AuthorizeRequest → Engine B Tokens → Reply × Engine B Tokens
  unfolding check_otp
  post_authorize env claims req e =
      check_otp env claims req (read_mfa_status env claims.user.name e)

  unfoldable pub refreshed : Env → ReadResult User → Engine B Tokens → Reply × Engine B Tokens
  refreshed env (found user) e = return_new_jwt backend d env (refreshed_result user) true "" e
  refreshed env absent e = (api_error, e)
  refreshed env unreadable e = (api_error, e)

  unfoldable pub for_owner : Env → Option String × Engine B Tokens → Reply × Engine B Tokens
  unfolding refreshed
  for_owner env (none, e) = (api_error, e)
  for_owner env (some name, e) = refreshed env (env.get_user name) e

  -- GetRefreshToken, with the cookie of the request.
  unfoldable pub get_refresh_token : Env → Option String → Engine B Tokens → Reply × Engine B Tokens
  unfolding for_owner
  get_refresh_token env none e =
      if d.is_using_oidc_auth
      then (api_error, e)
      else (api_forbidden "Could not retrieve a refresh token from the request", e)
  get_refresh_token env (some t) e =
      if d.is_using_oidc_auth
      then (api_error, e)
      else if t == ""
      then (api_forbidden "No refresh token was provided in the request", e)
      else for_owner env (lookup_refresh_token backend env t e)

  -- PostLogout: the cookie that it sets is empty.
  unfoldable pub post_logout : Env → Option String → Engine B Tokens → Reply × Engine B Tokens
  post_logout env none e = (logged_out none, e)
  post_logout env (some t) e = (logged_out (some ""), (lookup_refresh_token backend env t e).1)
