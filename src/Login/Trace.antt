-- ===== src/Login/Trace.antt =====
-- The requests to /api/login, /api/authorize, /api/refresh_token and /api/logout, one after the other.
use webmesh_vdi.Prelude.{String, Option, List, [], ◌∷◌}
use webmesh_vdi.Secrets.Store.{Backend}
use webmesh_vdi.Secrets.Engine.{Engine}
use webmesh_vdi.Api.Request.{AuthorizeRequest}
use webmesh_vdi.Login.Types.{TokenClaims, LoginRequest, Reply, Tokens, Deployment, Env}
use webmesh_vdi.Login.Handlers.{
  post_login, login_callback, post_authorize, get_refresh_token, post_logout,
}

-- A request with what surrounds it: the claims of its session, or its cookie.
pub data Event : Type 0 where
  login : Env → LoginRequest → Event
  callback : Env → Event
  authorize : Env → TokenClaims → AuthorizeRequest → Event
  refresh : Env → Option String → Event
  logout : Env → Option String → Event

module _ {B : Type 0} (backend : Backend B Tokens) (d : Deployment) where
  unfoldable pub handle : Event → Engine B Tokens → Reply × Engine B Tokens
  handle (login env req) e = post_login backend d env req e
  handle (callback env) e = login_callback backend d env e
  handle (authorize env claims req) e = post_authorize backend d env claims req e
  handle (refresh env cookie) e = get_refresh_token backend d env cookie e
  handle (logout env cookie) e = post_logout backend d env cookie e

  -- The replies, in order.
  unfoldable pub replies : List Event → Engine B Tokens → List Reply
  replies [] e = []
  replies (ev ∷ evs) e = (handle ev e).0 ∷ replies evs (handle ev e).1

  unfoldable pub engine_after : List Event → Engine B Tokens → Engine B Tokens
  engine_after [] e = e
  engine_after (ev ∷ evs) e = engine_after evs (handle ev e).1
