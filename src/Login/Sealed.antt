-- ===== src/Login/Sealed.antt =====
-- What the token operations leave of the backend's state, for one user.
use webmesh_vdi.Prelude.{
  ◌≡◌, ◌≢◌, refl, sym, ◌∙◌, inl, inr, ℕ, String, Bool, true, false, Option, none, some, [], ◌∷◌,
  arith, All, Bool-cases, Option-cases, if◌then◌else◌,
}
use mathlib.Core.Path.{subst}
use text.Mathlib.Text.{◌==◌}
use webmesh_vdi.Prelude.Bytes.{Bytes, bytes_eq}
use webmesh_vdi.Secrets.Store.{ReadResult, found, absent, unreadable, stored_as, Backend, IsStore}
use webmesh_vdi.Secrets.Engine.{
  Engine, read_cache, write_cache, write_cache_map, fetched, fetched_map, read_secret,
  read_secret_map, write_secret_map,
}
use webmesh_vdi.Mfa.Manager.{ok}
use webmesh_vdi.Mfa.Service.{get_user_mfa_status}
use webmesh_vdi.Login.Types.{
  Tokens, lookup_token, delete_token, put_token, otp_users_secret_key, refresh_tokens_secret_key,
  Env,
}
use webmesh_vdi.Login.Tokens.{
  seconds, write_tokens, add_token, generate_refresh_token, remove_token, take_token,
  lookup_refresh_token,
}
use webmesh_vdi.Login.Handlers.{as_secret_read}

-- What a backend promises of its map secrets.
pub record IsMapStore {B : Type 0} {M : Type 0} (b : Backend B M) : Type 0 where
  pub read_map_write :
      (name : Bytes) (m : Option M) (st : B)
      → (b.write_map name m st).0 ≡ true
      → b.read_map name (b.write_map name m st).1 ≡ stored_as m

-- No token is the user's.
abbrev pub Lacks : String → Tokens → Type 0
Lacks name ts = All (λ (entry : String × String). entry.1 ≢ name) ts

Lacks-delete_token :
    (name t : String) (ts : Tokens) → Lacks name ts → Lacks name (delete_token t ts)
unfolding delete_token
Lacks-delete_token name t [] h = tt
Lacks-delete_token name t ((k, v) ∷ ts) (p, h) = elim (Bool-cases (k == t)) [
  | inl q ↦ rw q (Lacks-delete_token name t ts h)
  | inr q ↦ rw q (p, Lacks-delete_token name t ts h)
]

pub Lacks-lookup_token :
    (name t v : String) (ts : Tokens) → Lacks name ts → lookup_token t ts ≡ some v → v ≢ name
unfolding lookup_token
Lacks-lookup_token name t v [] h l = cc l
Lacks-lookup_token name t v ((k, w) ∷ ts) (p, h) l = elim (Bool-cases (k == t)) [
  | inl q ↦ λ e. p (ground (arith, q, l, e))
  | inr q ↦ Lacks-lookup_token name t v ts h (ground (arith, q, l))
]

pub found-inj : (ts ts' : Tokens) → found ts ≡ found ts' → ts ≡ ts'
found-inj ts ts' h = cc h

module _ {B : Type 0} (backend : Backend B Tokens) where
  fetched-state :
      (key : Bytes) (now : ℕ) (r : ReadResult Bytes) (e : Engine B Tokens)
      → (fetched backend key now r e).1.state ≡ e.state
  unfolding fetched write_cache
  fetched-state key now (found v) e = refl
  fetched-state key now absent e = refl
  fetched-state key now unreadable e = refl

  fetched-answer :
      (key : Bytes) (now : ℕ) (r : ReadResult Bytes) (e : Engine B Tokens)
      → (fetched backend key now r e).0 ≡ r
  unfolding fetched
  fetched-answer key now (found v) e = refl
  fetched-answer key now absent e = refl
  fetched-answer key now unreadable e = refl

  fetched_map-state :
      (key : Bytes) (now : ℕ) (r : ReadResult Tokens) (e : Engine B Tokens)
      → (fetched_map backend key now r e).1.state ≡ e.state
  unfolding fetched_map write_cache_map
  fetched_map-state key now (found v) e = refl
  fetched_map-state key now absent e = refl
  fetched_map-state key now unreadable e = refl

  fetched_map-answer :
      (key : Bytes) (now : ℕ) (r : ReadResult Tokens) (e : Engine B Tokens)
      → (fetched_map backend key now r e).0 ≡ r
  unfolding fetched_map
  fetched_map-answer key now (found v) e = refl
  fetched_map-answer key now absent e = refl
  fetched_map-answer key now unreadable e = refl

  -- A read changes the cache alone.
  pub read_secret-state :
      (key : Bytes) (cache : Bool) (now : ℕ) (e : Engine B Tokens)
      → (read_secret backend key cache now e).1.state ≡ e.state
  unfolding read_secret
  read_secret-state key cache now e =
      elim (Option-cases (if cache then read_cache backend key now e else none)) [
        | inl q ↦ rw (q, read_secret) (fetched-state key now (backend.read key e.state) e)
        | inr (v, q) ↦ rw (q, read_secret) refl
      ]

  pub read_secret-uncached :
      (key : Bytes) (now : ℕ) (e : Engine B Tokens)
      → (read_secret backend key false now e).0 ≡ backend.read key e.state
  unfolding read_secret
  read_secret-uncached key now e = fetched-answer key now (backend.read key e.state) e

  pub read_secret_map-state :
      (key : Bytes) (now : ℕ) (e : Engine B Tokens)
      → (read_secret_map backend key false now e).1.state ≡ e.state
  unfolding read_secret_map
  read_secret_map-state key now e = fetched_map-state key now (backend.read_map key e.state) e

  pub read_secret_map-uncached :
      (key : Bytes) (now : ℕ) (e : Engine B Tokens)
      → (read_secret_map backend key false now e).0 ≡ backend.read_map key e.state
  unfolding read_secret_map
  read_secret_map-uncached key now e = fetched_map-answer key now (backend.read_map key e.state) e

  pub write_secret_map-state :
      (key : Bytes) (m : Option Tokens) (now : ℕ) (e : Engine B Tokens)
      → (write_secret_map backend key m now e).1.state ≡ (backend.write_map key m e.state).1
  unfolding write_secret_map
  write_secret_map-state key m now e = elim (Bool-cases (backend.write_map key m e.state).0) [
    | inl q ↦ simp q (unfold write_cache_map in refl)
    | inr q ↦ simp q refl
  ]

  module _ (bytes_of : String → Bytes) (name : String) (otp : Bytes) where
    -- The user's MFA secret is stored as verified, and no refresh token is the user's.
    pub record Sealed (st : B) : Type 0 where
      pub status :
          get_user_mfa_status
            (as_secret_read (backend.read otp_users_secret_key st))
            (bytes_of name)
          ≡ ok (otp, true)
      pub no_token :
          (ts : Tokens) → backend.read_map refresh_tokens_secret_key st ≡ found ts → Lacks name ts

    module _ (store : IsStore backend) (maps : IsMapStore backend) where
      write_map-Sealed :
          (ts : Tokens) (st : B)
          → Sealed st
          → Lacks name ts
          → Sealed (backend.write_map refresh_tokens_secret_key (some ts) st).1
      write_map-Sealed ts st s l =
          elim (Bool-cases (backend.write_map refresh_tokens_secret_key (some ts) st).0) [
            | inl q ↦ record {
              status =
                  rw
                    (store.read_other_map refresh_tokens_secret_key otp_users_secret_key (some ts)
                      st (unfold bytes_eq in refl))
                    s.status;
              no_token = λ ts' h.
                  let w : stored_as (some ts) ≡ found ts' =
                    sym (maps.read_map_write refresh_tokens_secret_key (some ts) st q) ∙ h in
                  subst (Lacks name) (found-inj ts ts' (unfold stored_as in w)) l;
            }
            | inr q ↦ rw (store.write_map_failed refresh_tokens_secret_key (some ts) st q) s
          ]

      -- An operation that leaves the backend sealed, and gives no token of the user.
      write_tokens-Sealed :
          {A : Type 0} (env : Env) (result : A) (ts : Tokens) (e : Engine B Tokens)
          → Sealed e.state
          → Lacks name ts
          → Sealed (write_tokens backend env result ts e).1.state
      unfolding write_tokens
      write_tokens-Sealed env result ts e s l =
          rw (write_secret_map-state refresh_tokens_secret_key (some ts) (seconds env) e)
            (write_map-Sealed ts e.state s l)

      add_token-Sealed :
          (env : Env) (owner : String) (r : ReadResult Tokens) (e : Engine B Tokens)
          → Sealed e.state
          → ((ts : Tokens) → r ≡ found ts → Lacks name ts)
          → owner ≢ name
          → Sealed (add_token backend env owner (r, e)).1.state
      unfolding add_token put_token
      add_token-Sealed env owner (found ts) e s l n =
          write_tokens-Sealed env env.new_uuid (put_token env.new_uuid owner ts) e s
            (n, Lacks-delete_token name env.new_uuid ts (l ts refl))
      add_token-Sealed env owner absent e s l n =
          write_tokens-Sealed env env.new_uuid (put_token env.new_uuid owner []) e s
            (n, Lacks-delete_token name env.new_uuid [] tt)
      add_token-Sealed env owner unreadable e s l n = s

      pub generate_refresh_token-Sealed :
          (env : Env) (owner : String) (e : Engine B Tokens)
          → Sealed e.state
          → owner ≢ name
          → Sealed (generate_refresh_token backend env owner e).1.state
      unfolding generate_refresh_token
      generate_refresh_token-Sealed env owner e s n = elim (Bool-cases env.lock_ok) [
        | inl q ↦
            let out = read_secret_map backend refresh_tokens_secret_key false (seconds env) e in
            simp q (
              add_token-Sealed env owner out.0 out.1
                (rw (read_secret_map-state refresh_tokens_secret_key (seconds env) e) s)
                (λ ts h.
                  s.no_token ts
                    (sym (read_secret_map-uncached refresh_tokens_secret_key (seconds env) e) ∙ h))
                n)
        | inr q ↦ simp q s
      ]

      -- What a lookup leaves: the backend sealed, and a name that is not the user's.
      pub record Spared (out : Option String × Engine B Tokens) : Type 0 where
        pub sealed : Sealed out.1.state
        pub other : (v : String) → out.0 ≡ some v → v ≢ name

      write_tokens-answer :
          {A : Type 0} (env : Env) (result v : A) (ts : Tokens) (e : Engine B Tokens)
          → (write_tokens backend env result ts e).0 ≡ some v
          → result ≡ v
      unfolding write_tokens
      write_tokens-answer env result v ts e h =
          elim (Bool-cases
            (write_secret_map backend refresh_tokens_secret_key (some ts) (seconds env) e).0) [
              | inl q ↦ cc (simp q at h)
              | inr q ↦ cc (simp q at h)
            ]

      remove_token-Spared :
          (env : Env) (t : String) (ts : Tokens) (o : Option String) (e : Engine B Tokens)
          → Sealed e.state
          → Lacks name ts
          → lookup_token t ts ≡ o
          → Spared (remove_token backend env t ts o e)
      unfolding remove_token
      remove_token-Spared env t ts none e s l h = record { sealed = s; other = λ v k. cc k }
      remove_token-Spared env t ts (some w) e s l h = record {
        sealed = write_tokens-Sealed env w (delete_token t ts) e s (Lacks-delete_token name t ts l);
        other = λ v k.
            subst (λ (x : String). x ≢ name) (write_tokens-answer env w v (delete_token t ts) e k)
              (Lacks-lookup_token name t w ts l h);
      }

      take_token-Spared :
          (env : Env) (t : String) (r : ReadResult Tokens) (e : Engine B Tokens)
          → Sealed e.state
          → ((ts : Tokens) → r ≡ found ts → Lacks name ts)
          → Spared (take_token backend env t (r, e))
      unfolding take_token
      take_token-Spared env t (found ts) e s l =
          remove_token-Spared env t ts (lookup_token t ts) e s (l ts refl) refl
      take_token-Spared env t absent e s l = record { sealed = s; other = λ v k. cc k }
      take_token-Spared env t unreadable e s l = record { sealed = s; other = λ v k. cc k }

      pub lookup_refresh_token-Spared :
          (env : Env) (t : String) (e : Engine B Tokens)
          → Sealed e.state
          → Spared (lookup_refresh_token backend env t e)
      unfolding lookup_refresh_token
      lookup_refresh_token-Spared env t e s = elim (Bool-cases env.lock_ok) [
        | inl q ↦
            let out = read_secret_map backend refresh_tokens_secret_key false (seconds env) e in
            simp q (
              take_token-Spared env t out.0 out.1
                (rw (read_secret_map-state refresh_tokens_secret_key (seconds env) e) s)
                (λ ts h.
                  s.no_token ts
                    (sym (read_secret_map-uncached refresh_tokens_secret_key (seconds env) e) ∙ h)))
        | inr q ↦ simp q (record { sealed = s; other = λ v k. cc k })
      ]
