-- ===== src/Login/Spent.antt =====
-- Refresh tokens are used once: the token of a lookup against the requests that follow.
use webmesh_vdi.Prelude.{
  ◌≡◌, ◌≢◌, refl, sym, ◌∙◌, ap, inl, inr, String, true, false, Option, none, some, List, [], ◌∷◌,
  arith, All, Bool-cases, eq_iff,
}
use mathlib.Core.Path.{subst}
use text.Mathlib.Text.{◌==◌}
use webmesh_vdi.Secrets.Store.{ReadResult, found, absent, unreadable, stored_as, Backend, IsStore}
use webmesh_vdi.Secrets.Engine.{Engine, read_secret_map, write_secret_map}
use webmesh_vdi.Login.Types.{
  Tokens, lookup_token, delete_token, put_token, refresh_tokens_secret_key, Deployment, Env,
}
use webmesh_vdi.Login.Tokens.{
  seconds, write_tokens, add_token, generate_refresh_token, remove_token, take_token,
  lookup_refresh_token,
}
use webmesh_vdi.Login.Sealed.{
  IsMapStore, found-inj, read_secret_map-state, read_secret_map-uncached, write_secret_map-state,
}
use webmesh_vdi.Login.Trace.{Event, handle, engine_after}
use webmesh_vdi.Login.Kept.{env_of, HoldsTokens, handle-HoldsTokens}

-- The token is not in the map.
abbrev pub Missing : String → Tokens → Type 0
Missing t ts = lookup_token t ts ≡ none

pub Missing-delete_token :
    (t u : String) (ts : Tokens) → Missing t ts → Missing t (delete_token u ts)
unfolding lookup_token delete_token
Missing-delete_token t u [] h = refl
Missing-delete_token t u ((k, v) ∷ ts) h = elim (Bool-cases (k == t)) [
  | inl q ↦ absurd (ground (arith, q, h))
  | inr q ↦
      let rest = Missing-delete_token t u ts (simp q at h) in
      elim (Bool-cases (k == u)) [ inl z ↦ simp z rest | inr z ↦ simp (z, q) rest ]
]

delete_token-Missing : (t : String) (ts : Tokens) → Missing t (delete_token t ts)
unfolding lookup_token delete_token
delete_token-Missing t [] = refl
delete_token-Missing t ((k, v) ∷ ts) = elim (Bool-cases (k == t)) [
  | inl q ↦ simp q (delete_token-Missing t ts)
  | inr q ↦ simp q (delete_token-Missing t ts)
]

Missing-put_token :
    (t u owner : String) (ts : Tokens) → u ≢ t → Missing t ts → Missing t (put_token u owner ts)
unfolding lookup_token put_token
Missing-put_token t u owner ts n h = elim (Bool-cases (u == t)) [
  | inl q ↦ absurd (n (ground (arith, eq_iff u t, q)))
  | inr q ↦ simp q (Missing-delete_token t u ts h)
]

lookup-put_token :
    (t owner : String) (ts : Tokens) → lookup_token t (put_token t owner ts) ≡ some owner
unfolding lookup_token put_token
lookup-put_token t owner ts = ground (arith, eq_iff t t)

module _ {B : Type 0} (backend : Backend B Tokens) (d : Deployment) (store : IsStore backend)
    (maps : IsMapStore backend) where
  -- What a lookup does with a token that is missing.
  take-Missing :
      (env : Env) (t : String) (r : ReadResult Tokens) (e : Engine B Tokens)
      → ((ts : Tokens) → r ≡ found ts → Missing t ts)
      → (take_token backend env t (r, e)).0 ≡ none
  unfolding take_token remove_token
  take-Missing env t (found ts) e h = rw (h ts refl) refl
  take-Missing env t absent e h = refl
  take-Missing env t unreadable e h = refl

  lookup-Missing :
      (env : Env) (t : String) (e : Engine B Tokens)
      → HoldsTokens backend d store maps (Missing t) e
      → (lookup_refresh_token backend env t e).0 ≡ none
  unfolding lookup_refresh_token
  lookup-Missing env t e s = elim (Bool-cases env.lock_ok) [
    | inl q ↦
        let out = read_secret_map backend refresh_tokens_secret_key false (seconds env) e in
        simp q (
          take-Missing env t out.0 out.1 (λ ts h.
            s ts (
              sym (read_secret_map-uncached backend refresh_tokens_secret_key (seconds env) e)
              ∙ h)))
    | inr q ↦ simp q refl
  ]

  write_tokens-found :
      {A : Type 0} (env : Env) (result v : A) (ts : Tokens) (e : Engine B Tokens)
      → (write_tokens backend env result ts e).0 ≡ some v
      → (result ≡ v)
        × (backend.read_map refresh_tokens_secret_key (write_tokens backend env result ts e).1.state
            ≡ found ts)
  unfolding write_tokens write_secret_map
  write_tokens-found env result v ts e h =
      elim (Bool-cases (backend.write_map refresh_tokens_secret_key (some ts) e.state).0) [
        | inl q ↦ (
          cc (simp q at h),
          rw (write_secret_map-state backend refresh_tokens_secret_key (some ts) (seconds env) e) (
              maps.read_map_write refresh_tokens_secret_key (some ts) e.state q
              ∙ (unfold stored_as in refl)),
        )
        | inr q ↦ absurd (cc (simp q at h))
      ]

  -- After a lookup that gives a name, the token is missing.
  remove_found :
      (env : Env) (t v : String) (ts : Tokens) (o : Option String) (e : Engine B Tokens)
      → (remove_token backend env t ts o e).0 ≡ some v
      → (o ≡ some v)
        × HoldsTokens backend d store maps (Missing t) (remove_token backend env t ts o e).1
  unfolding remove_token
  remove_found env t v ts none e h = absurd (cc h)
  remove_found env t v ts (some w) e h =
      let (same, there) = write_tokens-found env w v (delete_token t ts) e h in
      (
        ap some same,
        λ ts' k.
            subst (Missing t) (found-inj (delete_token t ts) ts' (sym there ∙ k))
              (delete_token-Missing t ts),
      )

  take_found :
      (env : Env) (t v : String) (r : ReadResult Tokens) (e : Engine B Tokens)
      → (take_token backend env t (r, e)).0 ≡ some v
      → HoldsTokens backend d store maps (Missing t) (take_token backend env t (r, e)).1
  unfolding take_token
  take_found env t v (found ts) e h = (remove_found env t v ts (lookup_token t ts) e h).1
  take_found env t v absent e h = absurd (cc h)
  take_found env t v unreadable e h = absurd (cc h)

  lookup_found :
      (env : Env) (t v : String) (e : Engine B Tokens)
      → (lookup_refresh_token backend env t e).0 ≡ some v
      → HoldsTokens backend d store maps (Missing t) (lookup_refresh_token backend env t e).1
  unfolding lookup_refresh_token
  lookup_found env t v e h = elim (Bool-cases env.lock_ok) [
    | inl q ↦
        let out = read_secret_map backend refresh_tokens_secret_key false (seconds env) e in
        simp q (take_found env t v out.0 out.1 (simp q at h))
    | inr q ↦ absurd (cc (simp q at h))
  ]

  engine_after-Missing :
      (t : String) (evs : List Event) (e : Engine B Tokens)
      → All (λ ev. (env_of ev).new_uuid ≢ t) evs
      → HoldsTokens backend d store maps (Missing t) e
      → HoldsTokens backend d store maps (Missing t) (engine_after backend d evs e)
  unfolding engine_after
  engine_after-Missing t [] e f s = s
  engine_after-Missing t (ev ∷ evs) e (n, f) s =
      engine_after-Missing t evs (handle backend d ev e).1 f (
        handle-HoldsTokens backend d store maps (Missing t) (Missing-delete_token t) ev e
          (unfold lookup_token in refl)
          (λ owner ts m. Missing-put_token t (env_of ev).new_uuid owner ts n m) s)

  -- A refresh token whose lookup has once given a user, by a refresh or a logout, is of no use
  -- afterwards: after any sequence of requests to the login, authorize, refresh and logout routes
  -- that draw other random tokens, every lookup of it gives an error. The backend keeps what is
  -- written.
  pub lookup_refresh_token-once :
      (t v : String) (env env' : Env) (evs : List Event) (e : Engine B Tokens)
      → (lookup_refresh_token backend env t e).0 ≡ some v
      → All (λ ev. (env_of ev).new_uuid ≢ t) evs
      → (lookup_refresh_token backend env' t
          (engine_after backend d evs (lookup_refresh_token backend env t e).1)).0
        ≡ none
  lookup_refresh_token-once t v env env' evs e h f =
      let e' = (lookup_refresh_token backend env t e).1 in
      lookup-Missing env' t (engine_after backend d evs e')
        (engine_after-Missing t evs e' f (lookup_found env t v e h))

  -- The stored map of a token that was generated.
  record Generated (t owner : String) (st : B) : Type 0 where
    tokens : Tokens
    there : backend.read_map refresh_tokens_secret_key st ≡ found tokens
    owned : lookup_token t tokens ≡ some owner

  put-Generated :
      (env : Env) (t owner : String) (ts : Tokens) (e : Engine B Tokens)
      → (write_tokens backend env env.new_uuid (put_token env.new_uuid owner ts) e).0 ≡ some t
      → Generated t owner
          (write_tokens backend env env.new_uuid (put_token env.new_uuid owner ts) e).1.state
  put-Generated env t owner ts e h =
      let (same, there) =
        write_tokens-found env env.new_uuid t (put_token env.new_uuid owner ts) e h in
      record {
        tokens = put_token env.new_uuid owner ts;
        there = there;
        owned = rw (← same) (lookup-put_token env.new_uuid owner ts);
      }

  add-Generated :
      (env : Env) (t owner : String) (r : ReadResult Tokens) (e : Engine B Tokens)
      → (add_token backend env owner (r, e)).0 ≡ some t
      → Generated t owner (add_token backend env owner (r, e)).1.state
  unfolding add_token
  add-Generated env t owner (found ts) e h = put-Generated env t owner ts e h
  add-Generated env t owner absent e h = put-Generated env t owner [] e h
  add-Generated env t owner unreadable e h = absurd (cc h)

  generate-Generated :
      (env : Env) (t owner : String) (e : Engine B Tokens)
      → (generate_refresh_token backend env owner e).0 ≡ some t
      → Generated t owner (generate_refresh_token backend env owner e).1.state
  unfolding generate_refresh_token
  generate-Generated env t owner e h = elim (Bool-cases env.lock_ok) [
    | inl q ↦
        let out = read_secret_map backend refresh_tokens_secret_key false (seconds env) e in
        simp q (add-Generated env t owner out.0 out.1 (simp q at h))
    | inr q ↦ absurd (cc (simp q at h))
  ]

  write_tokens-done :
      {A : Type 0} (env : Env) (result : A) (ts : Tokens) (e : Engine B Tokens)
      → (backend.write_map refresh_tokens_secret_key (some ts) e.state).0 ≡ true
      → (write_tokens backend env result ts e).0 ≡ some result
  unfolding write_tokens write_secret_map
  write_tokens-done env result ts e h = simp h refl

  take_stored :
      (env : Env) (t v : String) (r : ReadResult Tokens) (ts : Tokens) (e : Engine B Tokens)
      → r ≡ found ts
      → lookup_token t ts ≡ some v
      → (backend.write_map refresh_tokens_secret_key (some (delete_token t ts)) e.state).0 ≡ true
      → (take_token backend env t (r, e)).0 ≡ some v
  unfolding take_token remove_token
  take_stored env t v r ts e h l w =
      rw h (rw (l, remove_token) (write_tokens-done env v (delete_token t ts) e w))

  -- A refresh token that is generated for a user is looked up as that user's name, at any later
  -- time, if the lock is given and the backend accepts the write. The backend keeps what is written.
  pub lookup-generate_refresh_token :
      (t owner : String) (env env' : Env) (e : Engine B Tokens)
      → (generate_refresh_token backend env owner e).0 ≡ some t
      → env'.lock_ok ≡ true
      → ((ts : Tokens)
          → (backend.write_map refresh_tokens_secret_key
              (some ts)
              (generate_refresh_token backend env owner e).1.state).0
            ≡ true)
      → (lookup_refresh_token backend env' t (generate_refresh_token backend env owner e).1).0
        ≡ some owner
  unfolding lookup_refresh_token
  lookup-generate_refresh_token t owner env env' e h lock w =
      let e' = (generate_refresh_token backend env owner e).1 in
      let g = generate-Generated env t owner e h in
      let out = read_secret_map backend refresh_tokens_secret_key false (seconds env') e' in
      simp lock (
        take_stored env' t owner out.0 g.tokens out.1
          (read_secret_map-uncached backend refresh_tokens_secret_key (seconds env') e' ∙ g.there)
          g.owned
          (rw (read_secret_map-state backend refresh_tokens_secret_key (seconds env') e')
            (w (delete_token t g.tokens))))
