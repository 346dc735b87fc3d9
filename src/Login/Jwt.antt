-- ===== src/Login/Jwt.antt =====
-- DecodeAndVerifyJWT of pkg/util/apiutil/jwt.go. The parser of the JWT library and the decoder of
-- mapstructure are parameters, and so is the type of the claims map that the one gives to the other.
use webmesh_vdi.Prelude.{ℕ, ◌/◌, ◌%◌, Bool, not, Option, none, some, ◌==◌, if◌then◌else◌}
use webmesh_vdi.Login.Types.{TokenClaims}

-- What the parser makes of a text: whether the token is valid, the bits of a validation error, where
-- the error is one, and the claims, where they are a map.
pub record Token (C : Type 0) : Type 0 where
  pub is_valid : Bool
  pub errors : Option ℕ
  pub claims : Option C

pub data Decoded : Type 0 where
  decoded : TokenClaims → Decoded
  not_parsed malformed_token expired not_valid_yet invalid_signature invalid_token bad_claims :
      Decoded
  not_decoded : Decoded

abbrev pub error_malformed : ℕ
error_malformed = 1

abbrev pub error_signature_invalid : ℕ
error_signature_invalid = 4

abbrev pub error_expired : ℕ
error_expired = 16

abbrev pub error_not_valid_yet : ℕ
error_not_valid_yet = 128

-- `errors & flag != 0`, for a flag of one bit.
unfoldable pub has_flag : ℕ → ℕ → Bool
has_flag errors flag = errors / flag % 2 == 1

unfoldable pub reason : Option ℕ → Decoded
reason none = invalid_token
reason (some errors) =
    if has_flag errors error_malformed
    then malformed_token
    else if has_flag errors error_expired
    then expired
    else if has_flag errors error_not_valid_yet
    then not_valid_yet
    else if has_flag errors error_signature_invalid
    then invalid_signature
    else invalid_token

-- The claims map is decoded into a session object of zeros. What the decoder does not find in the
-- map under the name of a field stays zero.
unfoldable pub decode_claims : {C : Type 0} → (C → Option TokenClaims) → Option C → Decoded
decode_claims decoder none = bad_claims
decode_claims decoder (some claims) = elim (decoder claims) [
  | none ↦ not_decoded
  | some session ↦ decoded session
]

unfoldable pub decode_and_verify_jwt :
    {C : Type 0} → (C → Option TokenClaims) → Option (Token C) → Decoded
unfolding reason decode_claims
decode_and_verify_jwt decoder none = not_parsed
decode_and_verify_jwt decoder (some token) =
    if not token.is_valid then reason token.errors else decode_claims decoder token.claims
