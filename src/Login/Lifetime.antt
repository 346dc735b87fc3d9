-- ===== src/Login/Lifetime.antt =====
-- The life of a token, from GenerateJWT to the check of a later request by ValidateUserSession.
use webmesh_vdi.Prelude.{
  ◌≡◌, refl, ◌∙◌, ℕ, ◌+◌, ◌/◌, ◌≤◌, ◌<◌, String, Bool, true, false, ◌||◌, Option, none, some, inl,
  inr, arith, leb, Bool-cases, if◌then◌else◌,
}
use text.Mathlib.Text.{◌==◌}
use webmesh_vdi.Prelude.Bytes.{Bytes}
use webmesh_vdi.Secrets.Lock.{second}
use webmesh_vdi.Api.Request.{Request}
use webmesh_vdi.Api.Session.{
  JwtClaims, next, unauthorized_token, not_authorized, auth_token, check_claims, verify_token,
  validate_user_session,
}
use webmesh_vdi.Login.Types.{AuthResult, TokenClaims, Deployment}
use webmesh_vdi.Login.Tokens.{new_claims, generate_jwt}
use webmesh_vdi.Login.Jwt.{
  Token, Decoded, decoded, error_expired, has_flag, reason, decode_claims, decode_and_verify_jwt,
}

-- The claims as the session check reads them, where the token decodes.
unfoldable pub session_claims : Decoded → Option JwtClaims
session_claims (decoded claims) =
    some (record { user = claims.user; authorized = claims.authorized })
session_claims _ = none

-- What the JWT library promises of some claims and a secret: the token that they are signed to parses
-- with the secret to the map of the claims, and from its issue on it is valid up to the second of its
-- expiry.
pub record IsJwtLibrary {C : Type 0} (sign : Bytes → TokenClaims → Option String)
    (parse : Bytes → ℕ → String → Option (Token C)) (as_map : TokenClaims → C) (secret : Bytes)
    (claims : TokenClaims) : Type 0 where
  pub signed_in_time :
      (token : String) (now : ℕ)
      → sign secret claims ≡ some token
      → claims.issued_at ≤ now
      → now ≤ claims.expires_at
      → parse secret now token
        ≡ some (record { is_valid = true; errors = none; claims = some (as_map claims) })
  pub signed_expired :
      (token : String) (now : ℕ)
      → sign secret claims ≡ some token
      → claims.issued_at ≤ now
      → claims.expires_at < now
      → parse secret now token
        ≡ some (record {
          is_valid = false;
          errors = some error_expired;
          claims = some (as_map claims);
        })

-- What mapstructure promises of the map of some claims: it decodes into a session object that has
-- the user and the flag, which are fields with their JSON names. Nothing is asked of the times: they
-- are fields of an embedded structure, which mapstructure looks up under the name of its type.
pub record IsDecoder {C : Type 0} (decoder : C → Option TokenClaims) (as_map : TokenClaims → C)
    (claims : TokenClaims) : Type 0 where
  pub session : TokenClaims
  pub decodes : decoder (as_map claims) ≡ some session
  pub same_user : session.user ≡ claims.user
  pub same_flag : session.authorized ≡ claims.authorized

module _ {C : Type 0} (d : Deployment) (parse : Bytes → ℕ → String → Option (Token C))
    (decoder : C → Option TokenClaims) (as_map : TokenClaims → C) where
  -- The decoder of the session check at a time, in seconds.
  abbrev pub decode_at : ℕ → Bytes → String → Option JwtClaims
  decode_at now secret token =
      session_claims (decode_and_verify_jwt decoder (parse secret now token))

  decode_map :
      (claims : TokenClaims)
      → IsDecoder decoder as_map claims
      → session_claims (decode_claims decoder (some (as_map claims)))
        ≡ some (record { user = claims.user; authorized = claims.authorized })
  unfolding decode_claims session_claims
  decode_map claims dec = rw (dec.decodes, session_claims) (rw (dec.same_user, dec.same_flag) refl)

  decode_generated :
      (secret : Bytes) (result : AuthResult) (authorized : Bool) (issued now : ℕ) (token : String)
      → IsJwtLibrary d.sign parse as_map secret (new_claims d result authorized issued)
      → IsDecoder decoder as_map (new_claims d result authorized issued)
      → (generate_jwt d secret result authorized issued).1 ≡ some token
      → issued / second ≤ now
      → decode_at now secret token ≡ (
          if leb now ((issued + d.token_duration) / second)
          then some (record { user = result.user; authorized = authorized })
          else none)
  unfolding generate_jwt new_claims decode_and_verify_jwt decode_claims session_claims has_flag
      reason
  decode_generated secret result authorized issued now token lib dec h i =
      elim (Bool-cases (leb now ((issued + d.token_duration) / second))) [
        | inl q ↦ simp (q, lib.signed_in_time token now h i (ground (arith, q))) (decode_map _ dec)
        | inr q ↦ simp (q, lib.signed_expired token now h i (ground (arith, q))) refl
      ]

  checked :
      (authorized : Bool) (r : Request) (result : AuthResult)
      → check_claims r (record { user = result.user; authorized = authorized }) ≡ (
          if authorized || r.path == "/api/authorize" || r.method == "POST"
          then next (record { user = result.user; authorized = authorized })
          else not_authorized)
  unfolding check_claims
  checked true r result = refl
  checked false r result = elim (Bool-cases (r.path == "/api/authorize")) [
    | inl q ↦ simp q refl
    | inr q ↦ elim (Bool-cases (r.method == "POST")) [
      | inl z ↦ simp (q, z) refl
      | inr z ↦ simp (q, z) refl
    ]
  ]

  verified :
      (secret : Bytes) (decode : Bytes → String → Option JwtClaims) (r : Request) (token : String)
      (claims : JwtClaims)
      → decode secret token ≡ some claims
      → verify_token (some secret) decode r token ≡ check_claims r claims
  unfolding verify_token
  verified secret decode r token claims h = rw (h, verify_token) refl

  rejected :
      (secret : Bytes) (decode : Bytes → String → Option JwtClaims) (r : Request) (token : String)
      → decode secret token ≡ none
      → verify_token (some secret) decode r token ≡ unauthorized_token
  unfolding verify_token
  rejected secret decode r token h = rw (h, verify_token) refl

  -- How the session check decides on a token of GenerateJWT, at a time from its issue on. Up to the
  -- second in which its duration ends, a request goes on with the user and the flag of the token if
  -- the flag is set, or its path is that of the authorization, or its method is POST, and is refused
  -- as not authorized otherwise; after that second the token is refused. The token is not empty, the
  -- JWT library parses it to the map of its claims and checks its times, and mapstructure decodes the
  -- user and the flag from that map.
  pub validate-generate_jwt :
      (secret : Bytes) (result : AuthResult) (authorized : Bool) (issued now : ℕ) (token : String)
      (r : Request) (query : Option String)
      → IsJwtLibrary d.sign parse as_map secret (new_claims d result authorized issued)
      → IsDecoder decoder as_map (new_claims d result authorized issued)
      → (generate_jwt d secret result authorized issued).1 ≡ some token
      → issued / second ≤ now
      → (token == "") ≡ false
      → validate_user_session (some secret) (decode_at now) r token query ≡ (
          if leb now ((issued + d.token_duration) / second)
          then (if authorized || r.path == "/api/authorize" || r.method == "POST"
              then next (record { user = result.user; authorized = authorized })
              else not_authorized)
          else unauthorized_token)
  unfolding validate_user_session auth_token
  validate-generate_jwt secret result authorized issued now token r query lib dec h i n =
      let made = decode_generated secret result authorized issued now token lib dec h i in
      elim (Bool-cases (leb now ((issued + d.token_duration) / second))) [
        | inl q ↦
            let there = verified secret (decode_at now) r token _ (made ∙ (simp q refl)) in
            simp (n, there, q) (checked authorized r result)
        | inr q ↦
            let refused = rejected secret (decode_at now) r token (made ∙ (simp q refl)) in
            simp (n, refused, q) refl
      ]
