-- ===== src/Login/Mfa.antt =====
-- The MFA routes of a user: GetUserMFA, PutUserMFA and PutUserMFAVerify of pkg/api. The engine enters
-- by its answers; the OTP library is two functions on a secret.
use webmesh_vdi.Prelude.{ℕ, String, Bool, true, false, not, List, [], ◌∷◌, if◌then◌else◌}
use text.Mathlib.Text.{◌==◌}
use webmesh_vdi.Prelude.Bytes.{Bytes}
use webmesh_vdi.Rbac.Types.{User}
use webmesh_vdi.Secrets.{SecretRead, SecretEngine, SecretCall, call_read}
use webmesh_vdi.Secrets.Store.{ReadResult, found, absent, unreadable}
use webmesh_vdi.Mfa.Manager.{MfaResult, ok, err}
use webmesh_vdi.Mfa.Service.{Done, get_user_mfa_status, set_user_mfa_status, delete_user_secret}
use webmesh_vdi.Api.Request.{AuthorizeRequest, UpdateMfaRequest}
use webmesh_vdi.Login.Types.{
  MfaResponse, Reply, api_error, api_not_found, api_forbidden, mfa_status,
}
use webmesh_vdi.Login.Handlers.{is_user_not_found_error}

-- The code of a secret at a time, and the URI that provisions it for a user.
pub record OtpLibrary : Type 0 where
  pub code_at : Bytes → ℕ → String
  pub provisioning_uri : Bytes → Bytes → String

abbrev pub Handled : Type 0
Handled = Reply × List SecretCall

unfoldable pub mfa_disabled : MfaResponse
mfa_disabled = record { enabled = false; verified = false; provisioning_uri = "" }

unfoldable pub mfa_verified : MfaResponse
mfa_verified = record { enabled = true; verified = true; provisioning_uri = "" }

-- A call of the manager that answers the request with a body, or with its error.
unfoldable pub answer_done : MfaResponse → Done → Handled
answer_done response (ok done, calls) = (mfa_status response, calls)
answer_done response (err cause, calls) = (api_error, calls)

module _ (lib : OtpLibrary) where
  unfoldable pub shown : Bytes → MfaResult (Bytes × Bool) → Reply
  shown name (ok (secret, verified)) = mfa_status (record {
    enabled = true;
    verified = verified;
    provisioning_uri = lib.provisioning_uri secret name;
  })
  shown name (err cause) =
      if is_user_not_found_error cause then mfa_status mfa_disabled else api_error

  unfoldable pub get_user_mfa : SecretRead → Bytes → Reply
  unfolding shown
  get_user_mfa read name = shown name (get_user_mfa_status read name)

  unfoldable pub change_mfa : SecretEngine → Bytes → UpdateMfaRequest → Bytes → Handled
  change_mfa e name req new_secret =
      if req.enabled
      then answer_done
          (record {
            enabled = true;
            verified = false;
            provisioning_uri = lib.provisioning_uri new_secret name;
          })
          (set_user_mfa_status e name new_secret false)
      else answer_done mfa_disabled (delete_user_secret e name)

  unfoldable pub known_user :
      ReadResult User → SecretEngine → Bytes → UpdateMfaRequest → Bytes → Handled
  known_user (found user) e name req new_secret = change_mfa e name req new_secret
  known_user absent e name req new_secret = (api_not_found, [])
  known_user unreadable e name req new_secret = (api_error, [])

  -- `answer` is the provider's for the user, and `new_secret` the random one.
  unfoldable pub put_user_mfa :
      Bool → ReadResult User → SecretEngine → Bytes → UpdateMfaRequest → Bytes → Handled
  put_user_mfa using_oidc answer e name req new_secret =
      if not using_oidc
      then known_user answer e name req new_secret
      else change_mfa e name req new_secret

  unfoldable pub mark_verified : SecretEngine → Bytes → Bytes → Bool → Handled
  mark_verified e name secret true = (mfa_status mfa_verified, [])
  mark_verified e name secret false =
      answer_done mfa_verified (set_user_mfa_status e name secret true)

  unfoldable pub verify_code :
      SecretEngine → ℕ → Bytes → String → MfaResult (Bytes × Bool) → Handled
  unfolding mark_verified
  verify_code e now name otp (ok (secret, verified)) =
      if not (lib.code_at secret now == otp)
      then (api_forbidden "Invalid MFA Code", [])
      else mark_verified e name secret verified
  verify_code e now name otp (err cause) =
      (if not (is_user_not_found_error cause) then api_error else api_not_found, [])

  abbrev after_read : Handled → Handled
  after_read (reply, calls) = (reply, call_read ∷ calls)

  -- The status is read first, from `read`, without the lock that the change takes.
  unfoldable pub put_user_mfa_verify :
      SecretRead → SecretEngine → ℕ → Bytes → AuthorizeRequest → Handled
  unfolding verify_code
  put_user_mfa_verify read e now name req =
      after_read (verify_code e now name req.otp (get_user_mfa_status read name))
