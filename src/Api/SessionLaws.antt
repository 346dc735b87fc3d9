-- ===== src/Api/SessionLaws.antt =====
-- Which requests ValidateUserSession lets through.
use webmesh_vdi.Prelude.{
  String, ◌≡◌, ◌≢◌, refl, ◌⊎◌, inl, inr, ◌↔◌, true, Option, none, some, arith, eq_iff, Option-cases,
  Bool-cases, ap, ◌∙◌,
}
use mathlib.Core.Path.{subst}
use text.Mathlib.Text.{◌==◌}
use webmesh_vdi.Api.Request.{Request}
use webmesh_vdi.Api.Session.{
  JwtClaims, next, auth_token, check_claims, verify_token, validate_user_session,
}

check_claims_iff :
    (r : Request) (session claims : JwtClaims)
    → (check_claims r session ≡ next claims) ↔ (
        (session ≡ claims)
        × ((session.authorized ≡ true) ⊎ (r.path ≡ "/api/authorize") ⊎ (r.method ≡ "POST")))
unfolding check_claims
check_claims_iff r session claims =
    ground (arith, eq_iff r.path "/api/authorize", eq_iff r.method "POST")

module _ {Secret : Type 0} (decode_and_verify : Secret → String → Option JwtClaims) where
  Accepts : Option Secret → Request → String → JwtClaims → Type 0
  Accepts read_secret r token claims =
      ((secret : Secret) × (read_secret ≡ some secret)
        × (decode_and_verify secret token ≡ some claims))
      × ((claims.authorized ≡ true) ⊎ (r.path ≡ "/api/authorize") ⊎ (r.method ≡ "POST"))

  verify_token_sound :
      (read_secret : Option Secret) (r : Request) (token : String) (claims : JwtClaims)
      → verify_token read_secret decode_and_verify r token ≡ next claims
      → Accepts read_secret r token claims
  unfolding verify_token Accepts
  verify_token_sound none r token claims h = cc
  verify_token_sound (some secret) r token claims h =
      elim (Option-cases (decode_and_verify secret token)) [
        | inl f ↦ cc (rw (f, verify_token) at h)
        | inr (session, f) ↦
            let (same, allowed) =
              (check_claims_iff r session claims).0 (rw (f, verify_token) at h) in
            ((secret, refl, f ∙ ap some same), subst Allowed same allowed)
      ]
    where
      Allowed : JwtClaims → Type 0
      Allowed c = (c.authorized ≡ true) ⊎ (r.path ≡ "/api/authorize") ⊎ (r.method ≡ "POST")

  verify_token_complete :
      (read_secret : Option Secret) (r : Request) (token : String) (claims : JwtClaims)
      → Accepts read_secret r token claims
      → verify_token read_secret decode_and_verify r token ≡ next claims
  unfolding verify_token Accepts
  verify_token_complete read_secret r token claims ((secret, e, f), allowed) =
      rw (e, verify_token) (rw f ((check_claims_iff r claims claims).1 (refl, allowed)))

  -- The session of a request is accepted exactly when a token is given, the signing secret can be
  -- read, the token verifies to the claims, and the claims are authorized, or the route is the one
  -- that authorizes, or the method is POST, whatever the route.
  pub session_accepted_iff :
      (read_secret : Option Secret) (r : Request) (header : String) (query : Option String)
      (claims : JwtClaims)
      → (validate_user_session read_secret decode_and_verify r header query ≡ next claims) ↔ (
          (auth_token header query ≢ "")
          × ((secret : Secret) × (read_secret ≡ some secret)
              × (decode_and_verify secret (auth_token header query) ≡ some claims))
          × ((claims.authorized ≡ true) ⊎ (r.path ≡ "/api/authorize") ⊎ (r.method ≡ "POST")))
  unfolding validate_user_session Accepts
  session_accepted_iff read_secret r header query claims =
      let token = auth_token header query in
      elim (Bool-cases (token == "")) [
        | inl e ↦ rw e (λ h. cc, λ h. absurd (h.0 ((eq_iff token "").0 e)))
        | inr e ↦ rw e (
          λ h.
              let (found, allowed) = verify_token_sound read_secret r token claims h in
              (λ p. cc (e, (eq_iff token "").1 p), found, allowed),
          λ h. verify_token_complete read_secret r token claims (h.1, h.2),
        )
      ]
