-- ===== src/Login/Tokens.antt =====
-- The tokens of pkg/api/api_common.go over the secrets engine: returnNewJWT, generateRefreshToken
-- and lookupRefreshToken, with GenerateJWT of pkg/util/apiutil/jwt.go.
use webmesh_vdi.Prelude.{
  ℕ, ◌+◌, ◌/◌, String, Bool, true, false, not, ◌&&◌, Option, none, some, [], if◌then◌else◌,
}
use webmesh_vdi.Prelude.Bytes.{Bytes}
use webmesh_vdi.Secrets.Store.{ReadResult, found, absent, unreadable, Backend}
use webmesh_vdi.Secrets.Engine.{Engine, read_secret, read_secret_map, write_secret_map}
use webmesh_vdi.Secrets.Lock.{second}
use webmesh_vdi.Login.Types.{
  AuthResult, TokenClaims, SessionResponse, Reply, api_error, session, Tokens, lookup_token,
  delete_token, put_token, jwt_secret_key, refresh_tokens_secret_key, Deployment, Env,
}

-- The clock of the engine.
abbrev pub seconds : Env → ℕ
seconds env = env.now / second

unfoldable pub new_claims : Deployment → AuthResult → Bool → ℕ → TokenClaims
new_claims d result authorized now = record {
  user = result.user;
  authorized = authorized;
  renewable = not result.refresh_not_supported;
  extra = result.extra;
  expires_at = (now + d.token_duration) / second;
  issued_at = now / second;
}

-- GenerateJWT: the claims, and the signed token where the signing succeeds.
unfoldable pub generate_jwt :
    Deployment → Bytes → AuthResult → Bool → ℕ → TokenClaims × Option String
generate_jwt d secret result authorized now =
    let claims = new_claims d result authorized now in (claims, d.sign secret claims)

unfoldable pub session_response :
    AuthResult → Bool → String → TokenClaims → String → SessionResponse
session_response result authorized state claims token = record {
  token = token;
  expires_at = claims.expires_at;
  renewable = not result.refresh_not_supported;
  user = result.user;
  authorized = authorized;
  state = state;
}

-- The map that is read is changed in place, and so is the cache's; no reader of the refresh tokens
-- uses the cache.
module _ {B : Type 0} (backend : Backend B Tokens) where
  unfoldable pub write_tokens :
      {A : Type 0} → Env → A → Tokens → Engine B Tokens → Option A × Engine B Tokens
  write_tokens env result tokens e =
      let (done, e') =
        write_secret_map backend refresh_tokens_secret_key (some tokens) (seconds env) e in
      (if done then some result else none, e')

  unfoldable pub add_token :
      Env → String → ReadResult Tokens × Engine B Tokens → Option String × Engine B Tokens
  add_token env name (found tokens, e) =
      write_tokens env env.new_uuid (put_token env.new_uuid name tokens) e
  add_token env name (absent, e) = write_tokens env env.new_uuid (put_token env.new_uuid name []) e
  add_token env name (unreadable, e) = (none, e)

  -- `none` for an error.
  unfoldable pub generate_refresh_token :
      Env → String → Engine B Tokens → Option String × Engine B Tokens
  unfolding add_token
  generate_refresh_token env name e =
      if env.lock_ok
      then add_token env name
          (read_secret_map backend refresh_tokens_secret_key false (seconds env) e)
      else (none, e)

  unfoldable pub remove_token :
      Env → String → Tokens → Option String → Engine B Tokens → Option String × Engine B Tokens
  remove_token env t tokens none e = (none, e)
  remove_token env t tokens (some name) e = write_tokens env name (delete_token t tokens) e

  unfoldable pub take_token :
      Env → String → ReadResult Tokens × Engine B Tokens → Option String × Engine B Tokens
  take_token env t (found tokens, e) = remove_token env t tokens (lookup_token t tokens) e
  take_token env t (absent, e) = (none, e)
  take_token env t (unreadable, e) = (none, e)

  -- The name of the token's user, and the token is removed.
  unfoldable pub lookup_refresh_token :
      Env → String → Engine B Tokens → Option String × Engine B Tokens
  unfolding take_token
  lookup_refresh_token env t e =
      if env.lock_ok
      then take_token env t
          (read_secret_map backend refresh_tokens_secret_key false (seconds env) e)
      else (none, e)

  unfoldable pub with_cookie :
      SessionResponse → Option String × Engine B Tokens → Reply × Engine B Tokens
  with_cookie response (none, e) = (api_error, e)
  with_cookie response (some t, e) = (session (some t) response, e)

  unfoldable pub with_token :
      Env
      → AuthResult
      → Bool
      → String
      → TokenClaims × Option String
      → Engine B Tokens
      → Reply × Engine B Tokens
  with_token env result authorized state (claims, none) e = (api_error, e)
  with_token env result authorized state (claims, some token) e =
      let response = session_response result authorized state claims token in
      if authorized && not result.refresh_not_supported
      then with_cookie response (generate_refresh_token env result.user.name e)
      else (session none response, e)

  module _ (d : Deployment) where
    unfoldable pub with_secret :
        Env
        → AuthResult
        → Bool
        → String
        → ReadResult Bytes × Engine B Tokens
        → Reply × Engine B Tokens
    with_secret env result authorized state (found secret, e) =
        with_token env result authorized state (generate_jwt d secret result authorized env.now) e
    with_secret env result authorized state (absent, e) = (api_error, e)
    with_secret env result authorized state (unreadable, e) = (api_error, e)

    unfoldable pub return_new_jwt :
        Env → AuthResult → Bool → String → Engine B Tokens → Reply × Engine B Tokens
    unfolding with_secret
    return_new_jwt env result authorized state e =
        with_secret env result authorized state
          (read_secret backend jwt_secret_key true (seconds env) e)
