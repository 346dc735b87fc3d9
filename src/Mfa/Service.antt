-- ===== src/Mfa/Service.antt =====
-- The exported methods of the MFA manager in pkg/auth/mfa/mfa.go, with their calls of the secrets
-- engine.
use webmesh_vdi.Prelude.{Bool, true, false, Option, none, some, List, [], ◌∷◌, if◌then◌else◌}
use webmesh_vdi.Prelude.Bytes.{Bytes, bytes_eq, split_on}
use webmesh_vdi.Prelude.Lines.{scan}
use webmesh_vdi.Secrets.{
  SecretRead, secret, secret_not_found, read_error, SecretEngine, SecretCall, call_read, locked,
  write_back,
}
use webmesh_vdi.Mfa.Manager.{
  MfaResult, ok, err, user_not_found, scan_failed, lock_failed, read_failed, write_failed, colon,
  parse_bool, get_user_status_from_reader, update_user_status_in_reader, delete_user_from_reader,
}

unfoldable pub get_user_mfa_status : SecretRead → Bytes → MfaResult (Bytes × Bool)
get_user_mfa_status (secret users) name = get_user_status_from_reader name users
get_user_mfa_status secret_not_found name = err user_not_found
get_user_mfa_status read_error name = err read_failed

-- `mfaUsers[name] = verified`
unfoldable pub set_user : Bytes → Bool → List (Bytes × Bool) → List (Bytes × Bool)
set_user name verified [] = (name, verified) ∷ []
set_user name verified ((n, v) ∷ users) =
    let rest = set_user name verified users in
    if bytes_eq n name then (name, verified) ∷ users else (n, v) ∷ rest

unfoldable pub user_entry : List Bytes → Option (Bytes × Bool)
user_entry (name ∷ otp ∷ verified ∷ rest) = some (name, parse_bool verified)
user_entry _ = none

-- The loop of GetMFAUsers.
unfoldable pub mfa_users : List Bytes → List (Bytes × Bool) → List (Bytes × Bool)
mfa_users [] users = users
mfa_users (text ∷ rest) users = elim (bytes_eq text []) [
  | true ↦ mfa_users rest users
  | false ↦ elim (user_entry (split_on colon text)) [
    | none ↦ mfa_users rest users
    | some entry ↦ mfa_users rest (set_user entry.0 entry.1 users)
  ]
]

unfoldable pub finish_users : List (Bytes × Bool) → Bool → MfaResult (List (Bytes × Bool))
finish_users users true = ok users
finish_users users false = err scan_failed

unfoldable pub get_mfa_users : SecretRead → MfaResult (List (Bytes × Bool))
get_mfa_users (secret users) =
    let (found, complete) = scan users in finish_users (mfa_users found []) complete
get_mfa_users secret_not_found = ok []
get_mfa_users read_error = err read_failed

abbrev pub Done : Type 0
Done = MfaResult Unit × List SecretCall

-- The writing of new data, or the error that made it.
unfoldable pub store : SecretEngine → MfaResult Bytes → Done
store e (err cause) = (err cause, call_read ∷ [])
store e (ok new_data) =
    let (result, calls) = write_back e (ok tt) (err write_failed) new_data in
    (result, call_read ∷ calls)

-- SetUserMFAStatus behind its lock: data that is not there yet is empty.
unfoldable pub set_locked : SecretEngine → SecretRead → Bytes → Bytes → Bool → Done
set_locked e (secret users) name otp verified =
    store e (update_user_status_in_reader name otp verified users)
set_locked e secret_not_found name otp verified =
    store e (update_user_status_in_reader name otp verified [])
set_locked e read_error name otp verified = (err read_failed, call_read ∷ [])

unfoldable pub set_user_mfa_status : SecretEngine → Bytes → Bytes → Bool → Done
set_user_mfa_status e name otp verified =
    locked e (err lock_failed) (set_locked e e.read name otp verified)

unfoldable pub delete_locked : SecretEngine → SecretRead → Bytes → Done
delete_locked e (secret users) name = store e (delete_user_from_reader name users)
delete_locked e secret_not_found name = (ok tt, call_read ∷ [])
delete_locked e read_error name = (err read_failed, call_read ∷ [])

unfoldable pub delete_user_secret : SecretEngine → Bytes → Done
delete_user_secret e name = locked e (err lock_failed) (delete_locked e e.read name)
