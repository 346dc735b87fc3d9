-- ===== src/Mfa/Stored.antt =====
-- The calls that the MFA manager makes of the secrets engine, and what it leaves there.
use webmesh_vdi.Prelude.{◌≡◌, sym, ap, ◌∙◌, ◌⊎◌, inl, inr, Bool, true, [], ◌∷◌}
use webmesh_vdi.Prelude.Bytes.{Bytes, Free}
use webmesh_vdi.Prelude.Lines.{scan, IsLine}
use webmesh_vdi.Secrets.{
  SecretRead, secret, secret_not_found, read_error, SecretEngine, call_lock, call_read, call_write,
  call_release, OneWrite, read_only, read_write, Disciplined, locked-Disciplined, locked,
  write_back,
}
use webmesh_vdi.Mfa.Manager.{MfaResult, ok, err, colon, status_line, update_user_status_in_reader}
use webmesh_vdi.Mfa.Service.{
  store, set_locked, set_user_mfa_status, delete_locked, delete_user_secret, get_user_mfa_status,
}
use webmesh_vdi.Mfa.Status.{get-update, update-scanned}

store-OneWrite : (e : SecretEngine) (res : MfaResult Bytes) → OneWrite (store e res).1
unfolding store write_back
store-OneWrite e (ok new_data) = read_write new_data
store-OneWrite e (err cause) = read_only

set_locked-OneWrite :
    (e : SecretEngine) (read : SecretRead) (name otp : Bytes) (verified : Bool)
    → OneWrite (set_locked e read name otp verified).1
unfolding set_locked
set_locked-OneWrite e (secret users) name otp verified = store-OneWrite e _
set_locked-OneWrite e secret_not_found name otp verified = store-OneWrite e _
set_locked-OneWrite e read_error name otp verified = read_only

delete_locked-OneWrite :
    (e : SecretEngine) (read : SecretRead) (name : Bytes) → OneWrite (delete_locked e read name).1
unfolding delete_locked
delete_locked-OneWrite e (secret users) name = store-OneWrite e _
delete_locked-OneWrite e secret_not_found name = read_only
delete_locked-OneWrite e read_error name = read_only

-- Whatever the engine answers, setting and deleting a user's OTP data asks for the lock first, makes
-- no other call without it, and otherwise gives it back as the last call, after one read and at most
-- one write.
pub mfa_calls-Disciplined :
    (e : SecretEngine) (name otp : Bytes) (verified : Bool)
    → Disciplined e (set_user_mfa_status e name otp verified).1
      × Disciplined e (delete_user_secret e name).1
unfolding set_user_mfa_status delete_user_secret
mfa_calls-Disciplined e name otp verified = (
  locked-Disciplined e _ _ (set_locked-OneWrite e e.read name otp verified),
  locked-Disciplined e _ _ (delete_locked-OneWrite e e.read name),
)

-- The data that the engine has, where a missing secret is empty.
abbrev pub Holds : SecretRead → Bytes → Type 0
Holds read users = (read ≡ secret users) ⊎ ((read ≡ secret_not_found) × (users ≡ []))

-- Where the engine gives the lock, holds data that scans without an error (none at all included) and
-- takes the write, SetUserMFAStatus succeeds, GetUserMFAStatus of what it wrote answers the new secret
-- and flag, and what it wrote scans without an error, if the name and the secret have no colon and
-- the new line is one for the scanner.
pub get-set_user_mfa_status :
    (e : SecretEngine) (users name otp : Bytes) (verified : Bool)
    → e.lock_ok ≡ true
    → e.write_ok ≡ true
    → Holds e.read users
    → (scan users).1 ≡ true
    → Free colon name
    → Free colon otp
    → IsLine (status_line name otp verified)
    → (new : Bytes) × (set_user_mfa_status e name otp verified
        ≡ (ok tt, call_lock ∷ call_read ∷ call_write new ∷ call_release ∷ []))
      × (get_user_mfa_status (secret new) name ≡ ok (otp, verified))
      × ((scan new).1 ≡ true)
unfolding set_user_mfa_status locked set_locked store write_back get_user_mfa_status
get-set_user_mfa_status e users name otp verified l w held s f g k =
    let (new, updated, read_back) = get-update name otp verified users f g k s in
    let scanned = update-scanned name otp verified users new k s updated in
    elim held [
      | inl h ↦ (new, rw (l, h, updated, w), read_back, scanned)
      | inr h ↦
          let from_empty : update_user_status_in_reader name otp verified [] ≡ ok new =
            ap (update_user_status_in_reader name otp verified) (sym h.1) ∙ updated in
          (new, rw (l, h.0, set_locked, from_empty, w), read_back, scanned)
    ]
