-- ===== src/Login/Kept.antt =====
-- A property of the stored refresh tokens that every request keeps.
use webmesh_vdi.Prelude.{
  ◌≡◌, refl, sym, ◌∙◌, inl, inr, String, Bool, true, false, ◌&&◌, Option, none, some, [],
  Bool-cases,
}
use mathlib.Core.Path.{subst}
use text.Mathlib.Text.{◌==◌}
use webmesh_vdi.Prelude.Bytes.{Bytes}
use webmesh_vdi.Rbac.Types.{User}
use webmesh_vdi.Secrets.Store.{ReadResult, found, absent, unreadable, stored_as, Backend, IsStore}
use webmesh_vdi.Secrets.Engine.{Engine, read_secret, read_secret_map}
use webmesh_vdi.Mfa.Manager.{MfaResult, ok, err}
use webmesh_vdi.Api.Request.{AuthorizeRequest}
use webmesh_vdi.Login.Types.{
  AuthResult, TokenClaims, LoginRequest, SessionResponse, Tokens, lookup_token, delete_token,
  put_token, jwt_secret_key, otp_users_secret_key, refresh_tokens_secret_key, user_anonymous,
  Deployment, Env,
}
use webmesh_vdi.Login.Tokens.{
  seconds, generate_jwt, write_tokens, add_token, generate_refresh_token, remove_token, take_token,
  lookup_refresh_token, with_cookie, with_token, with_secret, return_new_jwt,
}
use webmesh_vdi.Login.Handlers.{
  is_user_not_found_error, anonymous_result, session_result, refreshed_result, read_mfa_status,
  by_mfa_status, check_mfa_and_return_jwt, authenticated, post_login, login_callback, check_otp,
  post_authorize, refreshed, for_owner, get_refresh_token, post_logout,
}
use webmesh_vdi.Login.Sealed.{
  IsMapStore, found-inj, read_secret-state, read_secret_map-state, read_secret_map-uncached,
  write_secret_map-state,
}
use webmesh_vdi.Login.Trace.{Event, login, callback, authorize, refresh, logout, handle}

-- The surroundings of an event.
abbrev pub env_of : Event → Env
env_of (login env req) = env
env_of (callback env) = env
env_of (authorize env claims req) = env
env_of (refresh env cookie) = env
env_of (logout env cookie) = env

module _ {B : Type 0} (backend : Backend B Tokens) (d : Deployment) (store : IsStore backend)
    (maps : IsMapStore backend) (P : Tokens → Type 0) where
  -- The stored tokens, where there are any, are such.
  abbrev pub HoldsTokens : Engine B Tokens → Type 0
  HoldsTokens e =
      (ts : Tokens) → backend.read_map refresh_tokens_secret_key e.state ≡ found ts → P ts

  pub write_tokens-HoldsTokens :
      {A : Type 0} (env : Env) (result : A) (ts : Tokens) (e : Engine B Tokens)
      → HoldsTokens e
      → P ts
      → HoldsTokens (write_tokens backend env result ts e).1
  unfolding write_tokens
  write_tokens-HoldsTokens env result ts e s p ts' h =
      let h' =
        rw (write_secret_map-state backend refresh_tokens_secret_key (some ts) (seconds env) e) at
          h in
      elim (Bool-cases (backend.write_map refresh_tokens_secret_key (some ts) e.state).0) [
        | inl q ↦
            let w : stored_as (some ts) ≡ found ts' =
              sym (maps.read_map_write refresh_tokens_secret_key (some ts) e.state q) ∙ h' in
            subst P (found-inj ts ts' (unfold stored_as in w)) p
        | inr q ↦
            s ts' (rw (store.write_map_failed refresh_tokens_secret_key (some ts) e.state q) at h')
      ]

  read_tokens-HoldsTokens :
      (env : Env) (e : Engine B Tokens)
      → HoldsTokens e
      → HoldsTokens (read_secret_map backend refresh_tokens_secret_key false (seconds env) e).1
  read_tokens-HoldsTokens env e s =
      rw (read_secret_map-state backend refresh_tokens_secret_key (seconds env) e) s

  module _ (delete-P : (t : String) (ts : Tokens) → P ts → P (delete_token t ts)) where
    remove_token-HoldsTokens :
        (env : Env) (t : String) (ts : Tokens) (o : Option String) (e : Engine B Tokens)
        → HoldsTokens e
        → P ts
        → HoldsTokens (remove_token backend env t ts o e).1
    unfolding remove_token
    remove_token-HoldsTokens env t ts none e s p = s
    remove_token-HoldsTokens env t ts (some w) e s p =
        write_tokens-HoldsTokens env w (delete_token t ts) e s (delete-P t ts p)

    take_token-HoldsTokens :
        (env : Env) (t : String) (r : ReadResult Tokens) (e : Engine B Tokens)
        → HoldsTokens e
        → ((ts : Tokens) → r ≡ found ts → P ts)
        → HoldsTokens (take_token backend env t (r, e)).1
    unfolding take_token
    take_token-HoldsTokens env t (found ts) e s p =
        remove_token-HoldsTokens env t ts (lookup_token t ts) e s (p ts refl)
    take_token-HoldsTokens env t absent e s p = s
    take_token-HoldsTokens env t unreadable e s p = s

    pub lookup_refresh_token-HoldsTokens :
        (env : Env) (t : String) (e : Engine B Tokens)
        → HoldsTokens e
        → HoldsTokens (lookup_refresh_token backend env t e).1
    unfolding lookup_refresh_token
    lookup_refresh_token-HoldsTokens env t e s = elim (Bool-cases env.lock_ok) [
      | inl q ↦
          let out = read_secret_map backend refresh_tokens_secret_key false (seconds env) e in
          simp q (
            take_token-HoldsTokens env t out.0 out.1 (read_tokens-HoldsTokens env e s) (λ ts h.
              s ts (
                sym (read_secret_map-uncached backend refresh_tokens_secret_key (seconds env) e)
                ∙ h)))
      | inr q ↦ simp q s
    ]

    -- The requests whose new token keeps the property.
    module _ (empty-P : P []) (env : Env)
        (put-P : (owner : String) (ts : Tokens) → P ts → P (put_token env.new_uuid owner ts)) where
      add_token-HoldsTokens :
          (owner : String) (r : ReadResult Tokens) (e : Engine B Tokens)
          → HoldsTokens e
          → ((ts : Tokens) → r ≡ found ts → P ts)
          → HoldsTokens (add_token backend env owner (r, e)).1
      unfolding add_token
      add_token-HoldsTokens owner (found ts) e s p =
          write_tokens-HoldsTokens env env.new_uuid (put_token env.new_uuid owner ts) e s
            (put-P owner ts (p ts refl))
      add_token-HoldsTokens owner absent e s p =
          write_tokens-HoldsTokens env env.new_uuid (put_token env.new_uuid owner []) e s
            (put-P owner [] empty-P)
      add_token-HoldsTokens owner unreadable e s p = s

      generate_refresh_token-HoldsTokens :
          (owner : String) (e : Engine B Tokens)
          → HoldsTokens e
          → HoldsTokens (generate_refresh_token backend env owner e).1
      unfolding generate_refresh_token
      generate_refresh_token-HoldsTokens owner e s = elim (Bool-cases env.lock_ok) [
        | inl q ↦
            let out = read_secret_map backend refresh_tokens_secret_key false (seconds env) e in
            simp q (
              add_token-HoldsTokens owner out.0 out.1 (read_tokens-HoldsTokens env e s) (λ ts h.
                s ts (
                  sym (read_secret_map-uncached backend refresh_tokens_secret_key (seconds env) e)
                  ∙ h)))
        | inr q ↦ simp q s
      ]

      with_cookie-HoldsTokens :
          (response : SessionResponse) (out : Option String × Engine B Tokens)
          → HoldsTokens out.1
          → HoldsTokens (with_cookie backend response out).1
      unfolding with_cookie
      with_cookie-HoldsTokens response (none, e) s = s
      with_cookie-HoldsTokens response (some t, e) s = s

      with_token-HoldsTokens :
          (result : AuthResult) (authorized : Bool) (state : String)
          (signed : TokenClaims × Option String) (e : Engine B Tokens)
          → HoldsTokens e
          → HoldsTokens (with_token backend env result authorized state signed e).1
      unfolding with_token
      with_token-HoldsTokens result authorized state (claims, none) e s = s
      with_token-HoldsTokens result false state (claims, some token) e s = s
      with_token-HoldsTokens result true state (claims, some token) e s =
          elim (Bool-cases result.refresh_not_supported) [
            | inl q ↦ simp q s
            | inr q ↦ simp q (
                with_cookie-HoldsTokens _ (generate_refresh_token backend env result.user.name e)
                  (generate_refresh_token-HoldsTokens result.user.name e s))
          ]

      with_secret-HoldsTokens :
          (result : AuthResult) (authorized : Bool) (state : String) (r : ReadResult Bytes)
          (e : Engine B Tokens)
          → HoldsTokens e
          → HoldsTokens (with_secret backend d env result authorized state (r, e)).1
      unfolding with_secret
      with_secret-HoldsTokens result authorized state (found secret) e s =
          with_token-HoldsTokens result authorized state
            (generate_jwt d secret result authorized env.now) e s
      with_secret-HoldsTokens result authorized state absent e s = s
      with_secret-HoldsTokens result authorized state unreadable e s = s

      return_new_jwt-HoldsTokens :
          (result : AuthResult) (authorized : Bool) (state : String) (e : Engine B Tokens)
          → HoldsTokens e
          → HoldsTokens (return_new_jwt backend d env result authorized state e).1
      unfolding return_new_jwt
      return_new_jwt-HoldsTokens result authorized state e s =
          let out = read_secret backend jwt_secret_key true (seconds env) e in
          with_secret-HoldsTokens result authorized state out.0 out.1
            (rw (read_secret-state backend jwt_secret_key true (seconds env) e) s)

      read_status-HoldsTokens :
          (asked : String) (e : Engine B Tokens)
          → HoldsTokens e
          → HoldsTokens (read_mfa_status backend d env asked e).1
      unfolding read_mfa_status
      read_status-HoldsTokens asked e s =
          rw (read_secret-state backend otp_users_secret_key false (seconds env) e) s

      by_mfa_status-HoldsTokens :
          (result : AuthResult) (state : String) (r : MfaResult (Bytes × Bool))
          (e : Engine B Tokens)
          → HoldsTokens e
          → HoldsTokens (by_mfa_status backend d env result state (r, e)).1
      unfolding by_mfa_status
      by_mfa_status-HoldsTokens result state (ok (secret, false)) e s =
          return_new_jwt-HoldsTokens result true state e s
      by_mfa_status-HoldsTokens result state (ok (secret, true)) e s =
          return_new_jwt-HoldsTokens result false state e s
      by_mfa_status-HoldsTokens result state (err cause) e s =
          elim (Bool-cases (is_user_not_found_error cause)) [
            | inl q ↦ simp q (return_new_jwt-HoldsTokens result true state e s)
            | inr q ↦ simp q s
          ]

      authenticated-HoldsTokens :
          (req : LoginRequest) (answer : Option AuthResult) (e : Engine B Tokens)
          → HoldsTokens e
          → HoldsTokens (authenticated backend d env req answer e).1
      unfolding authenticated check_mfa_and_return_jwt
      authenticated-HoldsTokens req none e s =
          elim (Bool-cases (req.username == user_anonymous && d.anonymous_allowed)) [
            | inl q ↦ simp q (return_new_jwt-HoldsTokens (anonymous_result d) true req.state e s)
            | inr q ↦ simp q s
          ]
      authenticated-HoldsTokens req (some result) e s =
          elim (Bool-cases (result.redirect_url == "")) [
            | inl q ↦
                let out = read_mfa_status backend d env result.user.name e in
                simp q (
                  by_mfa_status-HoldsTokens result req.state out.0 out.1
                    (read_status-HoldsTokens result.user.name e s))
            | inr q ↦ simp q s
          ]

      check_otp-HoldsTokens :
          (claims : TokenClaims) (req : AuthorizeRequest) (r : MfaResult (Bytes × Bool))
          (e : Engine B Tokens)
          → HoldsTokens e
          → HoldsTokens (check_otp backend d env claims req (r, e)).1
      unfolding check_otp
      check_otp-HoldsTokens claims req (err cause) e s =
          elim (Bool-cases (is_user_not_found_error cause)) [
            | inl q ↦ simp q (return_new_jwt-HoldsTokens (session_result claims) true req.state e s)
            | inr q ↦ simp q s
          ]
      check_otp-HoldsTokens claims req (ok (secret, false)) e s = s
      check_otp-HoldsTokens claims req (ok (secret, true)) e s =
          elim (Bool-cases (d.totp_at secret (seconds env) == req.otp)) [
            | inl q ↦ simp q (return_new_jwt-HoldsTokens (session_result claims) true req.state e s)
            | inr q ↦ simp q s
          ]

      refreshed-HoldsTokens :
          (answer : ReadResult User) (e : Engine B Tokens)
          → HoldsTokens e
          → HoldsTokens (refreshed backend d env answer e).1
      unfolding refreshed
      refreshed-HoldsTokens (found user) e s =
          return_new_jwt-HoldsTokens (refreshed_result user) true "" e s
      refreshed-HoldsTokens absent e s = s
      refreshed-HoldsTokens unreadable e s = s

      for_owner-HoldsTokens :
          (answer : Option String) (e : Engine B Tokens)
          → HoldsTokens e
          → HoldsTokens (for_owner backend d env (answer, e)).1
      unfolding for_owner
      for_owner-HoldsTokens none e s = s
      for_owner-HoldsTokens (some v) e s = refreshed-HoldsTokens (env.get_user v) e s

      get_refresh_token-HoldsTokens :
          (cookie : Option String) (e : Engine B Tokens)
          → HoldsTokens e
          → HoldsTokens (get_refresh_token backend d env cookie e).1
      unfolding get_refresh_token
      get_refresh_token-HoldsTokens none e s = elim (Bool-cases d.is_using_oidc_auth) [
        | inl q ↦ simp q s
        | inr q ↦ simp q s
      ]
      get_refresh_token-HoldsTokens (some t) e s = elim (Bool-cases d.is_using_oidc_auth) [
        | inl q ↦ simp q s
        | inr q ↦ elim (Bool-cases (t == "")) [
          | inl z ↦ simp (q, z) s
          | inr z ↦
              let out = lookup_refresh_token backend env t e in
              simp (q, z)
                (for_owner-HoldsTokens out.0 out.1 (lookup_refresh_token-HoldsTokens env t e s))
        ]
      ]

    -- Every request whose new token keeps the property keeps it of the store.
    pub handle-HoldsTokens :
        (ev : Event) (e : Engine B Tokens)
        → P []
        → ((owner : String) (ts : Tokens) → P ts → P (put_token (env_of ev).new_uuid owner ts))
        → HoldsTokens e
        → HoldsTokens (handle backend d ev e).1
    unfolding handle post_login post_authorize login_callback post_logout
    handle-HoldsTokens (login env req) e z p s =
        authenticated-HoldsTokens z env p req (env.authenticate req) e s
    handle-HoldsTokens (callback env) e z p s = s
    handle-HoldsTokens (authorize env claims req) e z p s =
        let out = read_mfa_status backend d env claims.user.name e in
        check_otp-HoldsTokens z env p claims req out.0 out.1
          (read_status-HoldsTokens z env p claims.user.name e s)
    handle-HoldsTokens (refresh env cookie) e z p s =
        get_refresh_token-HoldsTokens z env p cookie e s
    handle-HoldsTokens (logout env none) e z p s = s
    handle-HoldsTokens (logout env (some t)) e z p s = lookup_refresh_token-HoldsTokens env t e s
