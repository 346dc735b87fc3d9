-- ===== src/Login/Enrolment.antt =====
-- Enrolling a user for MFA: what turns it on, and what verifies it.
use webmesh_vdi.Prelude.{
  ◌≡◌, refl, ◌∙◌, ap, ◌⊎◌, inl, inr, ℕ, String, Bool, true, false, List, [], ◌∷◌, arith, Any,
  Bool-cases, eq_iff,
}
use text.Mathlib.Text.{◌==◌}
use webmesh_vdi.Prelude.Bytes.{Bytes, Free}
use webmesh_vdi.Prelude.Lines.{scan, IsLine}
use webmesh_vdi.Rbac.Types.{User}
use webmesh_vdi.Secrets.{
  SecretRead, secret, SecretEngine, SecretCall, call_lock, call_read, call_write, call_release,
}
use webmesh_vdi.Secrets.Store.{found}
use webmesh_vdi.Mfa.Manager.{MfaResult, ok, err, colon, status_line}
use webmesh_vdi.Mfa.Service.{get_user_mfa_status, set_user_mfa_status}
use webmesh_vdi.Mfa.Stored.{Holds, get-set_user_mfa_status}
use webmesh_vdi.Api.Request.{AuthorizeRequest, UpdateMfaRequest}
use webmesh_vdi.Login.Types.{mfa_status}
use webmesh_vdi.Login.Handlers.{is_user_not_found_error}
use webmesh_vdi.Login.Mfa.{
  OtpLibrary, mfa_verified, answer_done, change_mfa, known_user, put_user_mfa, mark_verified,
  verify_code, put_user_mfa_verify,
}

abbrev pub IsWrite : SecretCall → Type 0
IsWrite call_lock = ⊥
IsWrite call_read = ⊥
IsWrite call_release = ⊥
IsWrite (call_write contents) = Unit

-- What the secret reads as after the calls.
unfoldable pub left_by : List SecretCall → SecretRead → SecretRead
left_by [] read = read
left_by (call_lock ∷ calls) read = left_by calls read
left_by (call_read ∷ calls) read = left_by calls read
left_by (call_release ∷ calls) read = left_by calls read
left_by (call_write contents ∷ calls) read = left_by calls (secret contents)

module _ (lib : OtpLibrary) where
  verify_code-Proven :
      (e : SecretEngine) (now : ℕ) (name : Bytes) (otp : String) (r : MfaResult (Bytes × Bool))
      → (Any IsWrite (verify_code lib e now name otp r).1)
        ⊎ ((verify_code lib e now name otp r).0 ≡ mfa_status mfa_verified)
      → (held : Bytes) × (verified : Bool) × (r ≡ ok (held, verified))
        × (lib.code_at held now ≡ otp)
  unfolding verify_code
  verify_code-Proven e now name otp (ok (held, verified)) h =
      elim (Bool-cases (lib.code_at held now == otp)) [
        | inl q ↦ (held, verified, refl, ground (arith, eq_iff (lib.code_at held now) otp, q))
        | inr q ↦ absurd (elim (simp q at h) [ inl w ↦ w | inr k ↦ cc k ])
      ]
  verify_code-Proven e now name otp (err cause) h =
      elim (Bool-cases (is_user_not_found_error cause)) [
        | inl q ↦ absurd (elim (simp q at h) [ inl w ↦ w | inr k ↦ cc k ])
        | inr q ↦ absurd (elim (simp q at h) [ inl w ↦ w | inr k ↦ cc k ])
      ]

  -- PutUserMFAVerify writes to the secrets, or answers that the user is verified, only if the user's
  -- status can be read and the request gives the code of the secret in it at the time.
  pub put_user_mfa_verify-needs_code :
      (read : SecretRead) (e : SecretEngine) (now : ℕ) (name : Bytes) (req : AuthorizeRequest)
      → (Any IsWrite (put_user_mfa_verify lib read e now name req).1)
        ⊎ ((put_user_mfa_verify lib read e now name req).0 ≡ mfa_status mfa_verified)
      → (held : Bytes) × (verified : Bool) × (get_user_mfa_status read name ≡ ok (held, verified))
        × (lib.code_at held now ≡ req.otp)
  unfolding put_user_mfa_verify
  put_user_mfa_verify-needs_code read e now name req h =
      verify_code-Proven e now name req.otp (get_user_mfa_status read name)
        (elim h [ inl (inl z) ↦ absurd z | inl (inr w) ↦ inl w | inr k ↦ inr k ])

  -- What the writes need of the user's name and secret.
  pub record IsEnrolled (name otp : Bytes) : Type 0 where
    pub name_free : Free colon name
    pub otp_free : Free colon otp
    pub unverified_line : IsLine (status_line name otp false)
    pub verified_line : IsLine (status_line name otp true)

  -- The engine gives the lock, holds the data and takes the write.
  pub record Serves (e : SecretEngine) (users : Bytes) : Type 0 where
    pub lock_given : e.lock_ok ≡ true
    pub written : e.write_ok ≡ true
    pub held : Holds e.read users
    pub scans : (scan users).1 ≡ true

  Serves-set :
      (e : SecretEngine) (users name otp : Bytes) (verified : Bool)
      → Serves e users
      → IsEnrolled name otp
      → (new : Bytes) × (set_user_mfa_status e name otp verified
          ≡ (ok tt, call_lock ∷ call_read ∷ call_write new ∷ call_release ∷ []))
        × (get_user_mfa_status (secret new) name ≡ ok (otp, verified))
        × ((scan new).1 ≡ true)
  Serves-set e users name otp true s n =
      get-set_user_mfa_status e users name otp true s.lock_given s.written s.held s.scans
        n.name_free n.otp_free n.verified_line
  Serves-set e users name otp false s n =
      get-set_user_mfa_status e users name otp false s.lock_given s.written s.held s.scans
        n.name_free n.otp_free n.unverified_line

  change_mfa-enables :
      (e : SecretEngine) (name otp : Bytes) (calls : List SecretCall) (req : UpdateMfaRequest)
      → req.enabled ≡ true
      → set_user_mfa_status e name otp false ≡ (ok tt, calls)
      → (change_mfa lib e name req otp).1 ≡ calls
  unfolding change_mfa answer_done
  change_mfa-enables e name otp calls req h s = simp (h, s) refl

  mark_verified-marks :
      (e : SecretEngine) (name otp : Bytes) (calls : List SecretCall)
      → set_user_mfa_status e name otp true ≡ (ok tt, calls)
      → mark_verified lib e name otp false ≡ (mfa_status mfa_verified, calls)
  unfolding mark_verified answer_done
  mark_verified-marks e name otp calls s = simp s refl

  verify_code-marks :
      (e : SecretEngine) (now : ℕ) (name otp : Bytes) (req : AuthorizeRequest)
      → lib.code_at otp now ≡ req.otp
      → verify_code lib e now name req.otp (ok (otp, false)) ≡ mark_verified lib e name otp false
  unfolding verify_code
  verify_code-marks e now name otp req h =
      let same : (lib.code_at otp now == req.otp) ≡ true =
        ground (arith, eq_iff (lib.code_at otp now) req.otp, h) in
      simp same refl

  -- Enrolment: a request that enables MFA leaves data from which the user's status reads as the new
  -- secret, not verified; and a later request with the code of that secret at its time, which still
  -- finds this data, is answered as verified and leaves data from which the status reads as that
  -- secret, verified. Both times the engine gives the lock and takes the write, and the first time it
  -- holds data that scans without an error; the provider has the user, the name and the secret have
  -- no colon, and the two lines of the user are ones for the scanner.
  pub enrols :
      (user : User) (e e' : SecretEngine) (users name otp : Bytes) (now : ℕ)
      (change : UpdateMfaRequest) (req : AuthorizeRequest)
      → change.enabled ≡ true
      → Serves e users
      → IsEnrolled name otp
      → e'.lock_ok ≡ true
      → e'.write_ok ≡ true
      → lib.code_at otp now ≡ req.otp
      → e'.read ≡ left_by (put_user_mfa lib false (found user) e name change otp).1 e.read
      → (get_user_mfa_status e'.read name ≡ ok (otp, false))
        × ((put_user_mfa_verify lib e'.read e' now name req).0 ≡ mfa_status mfa_verified)
        × (get_user_mfa_status
              (left_by (put_user_mfa_verify lib e'.read e' now name req).1 e'.read)
              name
            ≡ ok (otp, true))
  unfolding put_user_mfa known_user put_user_mfa_verify left_by
  enrols user e e' users name otp now change req on s n lock written code found_it =
      let (first, set, reads, scanned) = Serves-set e users name otp false s n in
      let calls = change_mfa-enables e name otp _ change on set in
      let stored : e'.read ≡ secret first =
        found_it ∙ ap (λ (cs : List SecretCall). left_by cs e.read) calls in
      let serves : Serves e' first = record {
        lock_given = lock;
        written = written;
        held = inl stored;
        scans = scanned;
      } in
      let (second, set', reads', scanned') = Serves-set e' first name otp true serves n in
      let done =
        verify_code-marks e' now name otp req code ∙ mark_verified-marks e' name otp _ set' in
      (rw stored reads, simp (stored, reads, done) refl, simp (stored, reads, done) reads')
