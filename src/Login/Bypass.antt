-- ===== src/Login/Bypass.antt =====
-- MFA is not bypassed: what a user with verified MFA needs for an authorized session.
use webmesh_vdi.Prelude.{
  ◌≡◌, ◌≢◌, refl, sym, ◌∙◌, ◌⊎◌, inl, inr, String, Bool, true, false, ◌&&◌, Option, none, some,
  List, [], ◌∷◌, arith, All, Any, Bool-cases, eq_iff,
}
use text.Mathlib.Text.{◌==◌}
use webmesh_vdi.Prelude.Bytes.{Bytes}
use webmesh_vdi.Rbac.Types.{User}
use webmesh_vdi.Secrets.Store.{ReadResult, found, absent, unreadable, Backend, IsStore}
use webmesh_vdi.Secrets.Engine.{Engine, read_secret}
use webmesh_vdi.Mfa.Manager.{MfaResult, ok, err}
use webmesh_vdi.Api.Request.{AuthorizeRequest}
use webmesh_vdi.Login.Types.{
  AuthResult, TokenClaims, LoginRequest, SessionResponse, Reply, api_error, api_not_found,
  api_forbidden, session, found_redirect, sign_in_at, mfa_status, logged_out, Tokens,
  jwt_secret_key, otp_users_secret_key, user_anonymous, Deployment, Env,
}
use webmesh_vdi.Login.Tokens.{
  seconds, generate_jwt, generate_refresh_token, lookup_refresh_token, with_cookie, with_token,
  with_secret, return_new_jwt, session_response,
}
use webmesh_vdi.Login.Handlers.{
  is_user_not_found_error, anonymous_result, session_result, refreshed_result, read_mfa_status,
  by_mfa_status, check_mfa_and_return_jwt, authenticated, post_login, login_callback, check_otp,
  post_authorize, refreshed, for_owner, get_refresh_token, post_logout,
}
use webmesh_vdi.Login.Sealed.{
  IsMapStore, read_secret-state, read_secret-uncached, Sealed, generate_refresh_token-Sealed,
  lookup_refresh_token-Spared,
}
use webmesh_vdi.Login.Trace.{Event, login, callback, authorize, refresh, logout, handle, replies}

-- The reply is an authorized session of the user.
unfoldable pub IsAuthorizedAs : String → Reply → Type 0
IsAuthorizedAs name (session cookie response) =
    (response.authorized ≡ true) × (response.user.name ≡ name)
IsAuthorizedAs name api_error = ⊥
IsAuthorizedAs name api_not_found = ⊥
IsAuthorizedAs name (api_forbidden text) = ⊥
IsAuthorizedAs name (found_redirect url) = ⊥
IsAuthorizedAs name (sign_in_at url state) = ⊥
IsAuthorizedAs name (mfa_status response) = ⊥
IsAuthorizedAs name (logged_out cookie) = ⊥

-- The event gives the one-time password of the secret, at its time, in a session of the user.
unfoldable pub GivesOtp : Deployment → String → Bytes → Event → Type 0
GivesOtp d name otp (authorize env claims req) =
    (claims.user.name ≡ name) × (d.totp_at otp (seconds env) ≡ req.otp)
GivesOtp d name otp (login env req) = ⊥
GivesOtp d name otp (callback env) = ⊥
GivesOtp d name otp (refresh env cookie) = ⊥
GivesOtp d name otp (logout env cookie) = ⊥

-- The provider answers a refresh with the user of the name it is asked for.
unfoldable pub AnswersByName : Event → Type 0
AnswersByName (refresh env cookie) =
    (name : String) (user : User) → env.get_user name ≡ found user → user.name ≡ name
AnswersByName (authorize env claims req) = Unit
AnswersByName (login env req) = Unit
AnswersByName (callback env) = Unit
AnswersByName (logout env cookie) = Unit

String-cases : (s t : String) → (s ≡ t) ⊎ (s ≢ t)
String-cases s t = elim (Bool-cases (s == t)) [
  | inl q ↦ inl (ground (arith, eq_iff s t, q))
  | inr q ↦ inr (λ e. ground (arith, eq_iff s t, q, e))
]

module _ {B : Type 0} (backend : Backend B Tokens) (d : Deployment) (name : String) (otp : Bytes)
    (store : IsStore backend) (maps : IsMapStore backend) where
  abbrev IsSealed : Engine B Tokens → Type 0
  IsSealed e = Sealed backend d.bytes_of name otp e.state

  -- No authorized session of the user, and the backend is still sealed.
  record Held (out : Reply × Engine B Tokens) : Type 0 where
    denied : ¬ (IsAuthorizedAs name out.0)
    sealed : IsSealed out.1

  with_cookie-Held :
      (response : SessionResponse) (out : Option String × Engine B Tokens)
      → response.user.name ≢ name
      → IsSealed out.1
      → Held (with_cookie backend response out)
  unfolding with_cookie IsAuthorizedAs
  with_cookie-Held response (none, e) n s = record { denied = λ h. h; sealed = s }
  with_cookie-Held response (some t, e) n s = record { denied = λ h. n h.1; sealed = s }

  with_token-Held :
      (env : Env) (result : AuthResult) (authorized : Bool) (state : String)
      (signed : TokenClaims × Option String) (e : Engine B Tokens)
      → (authorized ≡ false) ⊎ (result.user.name ≢ name)
      → IsSealed e
      → Held (with_token backend env result authorized state signed e)
  unfolding with_token IsAuthorizedAs session_response
  with_token-Held env result authorized state (claims, none) e h s = record {
    denied = λ k. k;
    sealed = s;
  }
  with_token-Held env result false state (claims, some token) e h s = record {
    denied = λ k. cc (k.0);
    sealed = s;
  }
  with_token-Held env result true state (claims, some token) e (inl h) s = absurd (cc h)
  with_token-Held env result true state (claims, some token) e (inr n) s =
      elim (Bool-cases result.refresh_not_supported) [
        | inl q ↦ simp q (record { denied = λ k. n k.1; sealed = s })
        | inr q ↦ simp q (
            with_cookie-Held _ (generate_refresh_token backend env result.user.name e) n (
              generate_refresh_token-Sealed backend d.bytes_of name otp store maps env
                result.user.name e s n))
      ]

  with_secret-Held :
      (env : Env) (result : AuthResult) (authorized : Bool) (state : String) (r : ReadResult Bytes)
      (e : Engine B Tokens)
      → (authorized ≡ false) ⊎ (result.user.name ≢ name)
      → IsSealed e
      → Held (with_secret backend d env result authorized state (r, e))
  unfolding with_secret IsAuthorizedAs
  with_secret-Held env result authorized state (found secret) e h s =
      with_token-Held env result authorized state (generate_jwt d secret result authorized env.now)
        e h s
  with_secret-Held env result authorized state absent e h s = record { denied = λ k. k; sealed = s }
  with_secret-Held env result authorized state unreadable e h s = record {
    denied = λ k. k;
    sealed = s;
  }

  return_new_jwt-Held :
      (env : Env) (result : AuthResult) (authorized : Bool) (state : String) (e : Engine B Tokens)
      → (authorized ≡ false) ⊎ (result.user.name ≢ name)
      → IsSealed e
      → Held (return_new_jwt backend d env result authorized state e)
  unfolding return_new_jwt
  return_new_jwt-Held env result authorized state e h s =
      let out = read_secret backend jwt_secret_key true (seconds env) e in
      with_secret-Held env result authorized state out.0 out.1 h
        (rw (read_secret-state backend jwt_secret_key true (seconds env) e) s)

  by_mfa_status-Held :
      (env : Env) (result : AuthResult) (state : String) (r : MfaResult (Bytes × Bool))
      (e : Engine B Tokens)
      → (r ≡ ok (otp, true)) ⊎ (result.user.name ≢ name)
      → IsSealed e
      → Held (by_mfa_status backend d env result state (r, e))
  unfolding by_mfa_status IsAuthorizedAs
  by_mfa_status-Held env result state (ok (secret, false)) e (inl h) s = absurd (cc h)
  by_mfa_status-Held env result state (ok (secret, false)) e (inr n) s =
      return_new_jwt-Held env result true state e (inr n) s
  by_mfa_status-Held env result state (ok (secret, true)) e h s =
      return_new_jwt-Held env result false state e (inl refl) s
  by_mfa_status-Held env result state (err cause) e (inl h) s = absurd (cc h)
  by_mfa_status-Held env result state (err cause) e (inr n) s =
      elim (Bool-cases (is_user_not_found_error cause)) [
        | inl q ↦ simp q (return_new_jwt-Held env result true state e (inr n) s)
        | inr q ↦ simp q (record { denied = λ k. k; sealed = s })
      ]

  -- Reading the status leaves the backend, and gives the user what is stored.
  read_status-state :
      (env : Env) (asked : String) (e : Engine B Tokens)
      → (read_mfa_status backend d env asked e).1.state ≡ e.state
  unfolding read_mfa_status
  read_status-state env asked e =
      read_secret-state backend otp_users_secret_key false (seconds env) e

  read_status-answer :
      (env : Env) (asked : String) (e : Engine B Tokens)
      → IsSealed e
      → asked ≡ name
      → (read_mfa_status backend d env asked e).0 ≡ ok (otp, true)
  unfolding read_mfa_status
  read_status-answer env asked e s h =
      rw (read_secret-uncached backend otp_users_secret_key (seconds env) e, h) s.status

  check_mfa-Held :
      (env : Env) (result : AuthResult) (state : String) (e : Engine B Tokens)
      → IsSealed e
      → Held (check_mfa_and_return_jwt backend d env result state e)
  unfolding check_mfa_and_return_jwt
  check_mfa-Held env result state e s =
      let out = read_mfa_status backend d env result.user.name e in
      by_mfa_status-Held env result state out.0 out.1
        (elim (String-cases result.user.name name) [
          | inl h ↦ inl (read_status-answer env result.user.name e s h)
          | inr n ↦ inr n
        ])
        (rw (read_status-state env result.user.name e) s)

  authenticated-Held :
      (env : Env) (req : LoginRequest) (answer : Option AuthResult) (e : Engine B Tokens)
      → name ≢ user_anonymous
      → IsSealed e
      → Held (authenticated backend d env req answer e)
  unfolding authenticated IsAuthorizedAs anonymous_result
  authenticated-Held env req none e n s =
      elim (Bool-cases (req.username == user_anonymous && d.anonymous_allowed)) [
        | inl q ↦
            simp q (
              return_new_jwt-Held env (anonymous_result d) true req.state e (inr (λ h. n (sym h)))
                s)
        | inr q ↦ simp q (record { denied = λ k. k; sealed = s })
      ]
  authenticated-Held env req (some result) e n s = elim (Bool-cases (result.redirect_url == "")) [
    | inl q ↦ simp q (check_mfa-Held env result req.state e s)
    | inr q ↦ simp q (record { denied = λ k. k; sealed = s })
  ]

  check_other_otp :
      (env : Env) (claims : TokenClaims) (req : AuthorizeRequest) (r : MfaResult (Bytes × Bool))
      (e : Engine B Tokens)
      → claims.user.name ≢ name
      → IsSealed e
      → Held (check_otp backend d env claims req (r, e))
  unfolding check_otp IsAuthorizedAs session_result
  check_other_otp env claims req (err cause) e n s =
      elim (Bool-cases (is_user_not_found_error cause)) [
        | inl q ↦
            simp q (return_new_jwt-Held env (session_result claims) true req.state e (inr n) s)
        | inr q ↦ simp q (record { denied = λ k. k; sealed = s })
      ]
  check_other_otp env claims req (ok (secret, false)) e n s = record { denied = λ k. k; sealed = s }
  check_other_otp env claims req (ok (secret, true)) e n s =
      elim (Bool-cases (d.totp_at secret (seconds env) == req.otp)) [
        | inl q ↦
            simp q (return_new_jwt-Held env (session_result claims) true req.state e (inr n) s)
        | inr q ↦ simp q (record { denied = λ k. k; sealed = s })
      ]

  check_own_otp :
      (env : Env) (claims : TokenClaims) (req : AuthorizeRequest) (r : MfaResult (Bytes × Bool))
      (e : Engine B Tokens)
      → claims.user.name ≡ name
      → r ≡ ok (otp, true)
      → IsSealed e
      → GivesOtp d name otp (authorize env claims req)
        ⊎ Held (check_otp backend d env claims req (r, e))
  unfolding check_otp IsAuthorizedAs GivesOtp
  check_own_otp env claims req r e own h s =
      elim (Bool-cases (d.totp_at otp (seconds env) == req.otp)) [
        | inl q ↦ inl (own, ground (arith, eq_iff (d.totp_at otp (seconds env)) req.otp, q))
        | inr q ↦ inr (simp (h, q) (record { denied = λ k. k; sealed = s }))
      ]

  -- The one-time password of another user's session changes nothing, nor does a wrong one.
  check_otp-Held :
      (env : Env) (claims : TokenClaims) (req : AuthorizeRequest) (r : MfaResult (Bytes × Bool))
      (e : Engine B Tokens)
      → (claims.user.name ≡ name → r ≡ ok (otp, true))
      → IsSealed e
      → GivesOtp d name otp (authorize env claims req)
        ⊎ Held (check_otp backend d env claims req (r, e))
  check_otp-Held env claims req r e h s = elim (String-cases claims.user.name name) [
    | inl q ↦ check_own_otp env claims req r e q (h q) s
    | inr n ↦ inr (check_other_otp env claims req r e n s)
  ]

  post_authorize-Held :
      (env : Env) (claims : TokenClaims) (req : AuthorizeRequest) (e : Engine B Tokens)
      → IsSealed e
      → GivesOtp d name otp (authorize env claims req)
        ⊎ Held (post_authorize backend d env claims req e)
  unfolding post_authorize
  post_authorize-Held env claims req e s =
      let out = read_mfa_status backend d env claims.user.name e in
      check_otp-Held env claims req out.0 out.1 (λ h. read_status-answer env claims.user.name e s h)
        (rw (read_status-state env claims.user.name e) s)

  refreshed-Held :
      (env : Env) (answer : ReadResult User) (e : Engine B Tokens)
      → ((user : User) → answer ≡ found user → user.name ≢ name)
      → IsSealed e
      → Held (refreshed backend d env answer e)
  unfolding refreshed IsAuthorizedAs refreshed_result
  refreshed-Held env (found user) e h s =
      return_new_jwt-Held env (refreshed_result user) true "" e (inr (h user refl)) s
  refreshed-Held env absent e h s = record { denied = λ k. k; sealed = s }
  refreshed-Held env unreadable e h s = record { denied = λ k. k; sealed = s }

  for_owner-Held :
      (env : Env) (answer : Option String) (e : Engine B Tokens)
      → ((asked : String) (user : User) → env.get_user asked ≡ found user → user.name ≡ asked)
      → ((v : String) → answer ≡ some v → v ≢ name)
      → IsSealed e
      → Held (for_owner backend d env (answer, e))
  unfolding for_owner IsAuthorizedAs
  for_owner-Held env none e h k s = record { denied = λ k. k; sealed = s }
  for_owner-Held env (some v) e h k s =
      refreshed-Held env (env.get_user v) e (λ user g q. k v refl (sym (h v user g) ∙ q)) s

  get_refresh_token-Held :
      (env : Env) (cookie : Option String) (e : Engine B Tokens)
      → ((asked : String) (user : User) → env.get_user asked ≡ found user → user.name ≡ asked)
      → IsSealed e
      → Held (get_refresh_token backend d env cookie e)
  unfolding get_refresh_token IsAuthorizedAs
  get_refresh_token-Held env none e h s = elim (Bool-cases d.is_using_oidc_auth) [
    | inl q ↦ simp q (record { denied = λ k. k; sealed = s })
    | inr q ↦ simp q (record { denied = λ k. k; sealed = s })
  ]
  get_refresh_token-Held env (some t) e h s = elim (Bool-cases d.is_using_oidc_auth) [
    | inl q ↦ simp q (record { denied = λ k. k; sealed = s })
    | inr q ↦ elim (Bool-cases (t == "")) [
      | inl z ↦ simp (q, z) (record { denied = λ k. k; sealed = s })
      | inr z ↦
          let out = lookup_refresh_token backend env t e in
          let spared =
            lookup_refresh_token-Spared backend d.bytes_of name otp store maps env t e s in
          simp (q, z) (for_owner-Held env out.0 out.1 h spared.other spared.sealed)
    ]
  ]

  post_logout-Held :
      (env : Env) (cookie : Option String) (e : Engine B Tokens)
      → IsSealed e
      → Held (post_logout backend d env cookie e)
  unfolding post_logout IsAuthorizedAs
  post_logout-Held env none e s = record { denied = λ k. k; sealed = s }
  post_logout-Held env (some t) e s = record {
    denied = λ k. k;
    sealed = (lookup_refresh_token-Spared backend d.bytes_of name otp store maps env t e s).sealed;
  }

  login_callback-Held :
      (env : Env) (e : Engine B Tokens) → IsSealed e → Held (login_callback backend d env e)
  unfolding login_callback IsAuthorizedAs
  login_callback-Held env e s = elim (Bool-cases env.callback_ok) [
    | inl q ↦ simp q (record { denied = λ k. k; sealed = s })
    | inr q ↦ simp q (record { denied = λ k. k; sealed = s })
  ]

  handle-Held :
      (ev : Event) (e : Engine B Tokens)
      → name ≢ user_anonymous
      → AnswersByName ev
      → IsSealed e
      → GivesOtp d name otp ev ⊎ Held (handle backend d ev e)
  unfolding handle AnswersByName post_login
  handle-Held (login env req) e n a s =
      inr (authenticated-Held env req (env.authenticate req) e n s)
  handle-Held (callback env) e n a s = inr (login_callback-Held env e s)
  handle-Held (authorize env claims req) e n a s = post_authorize-Held env claims req e s
  handle-Held (refresh env cookie) e n a s = inr (get_refresh_token-Held env cookie e a s)
  handle-Held (logout env cookie) e n a s = inr (post_logout-Held env cookie e s)

  -- While a user's MFA secret is stored as verified and no refresh token is stored for the user, no
  -- sequence of requests to the login, authorize, refresh and logout routes is answered with an
  -- authorized session of the user, unless one of the requests to authorize, in a session of the
  -- user, gives the one-time password of that secret at its time. The user is not the anonymous
  -- one, the backend keeps what is written and leaves the other secrets, and the provider answers
  -- each refresh with a user of the name that was asked for.
  pub needs_otp :
      (evs : List Event) (e : Engine B Tokens)
      → name ≢ user_anonymous
      → All AnswersByName evs
      → Sealed backend d.bytes_of name otp e.state
      → Any (IsAuthorizedAs name) (replies backend d evs e)
      → Any (GivesOtp d name otp) evs
  unfolding replies
  needs_otp [] e n a s h = h
  needs_otp (ev ∷ evs) e n (a, as') s h = elim (handle-Held ev e n a s) [
    | inl g ↦ inl g
    | inr held ↦ elim h [
      | inl now ↦ absurd (held.denied now)
      | inr later ↦ inr (needs_otp evs (handle backend d ev e).1 n as' held.sealed later)
    ]
  ]
