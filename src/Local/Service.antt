-- ===== src/Local/Service.antt =====
-- The provider's methods against the list of users that the stored file represents.
use webmesh_vdi.Prelude.{
  String, ◌≡◌, refl, ◌⊎◌, inl, inr, ◌↔◌, Bool, true, false, Option, none, some, List, [], ◌∷◌, ◌++◌,
  Bool-cases,
}
use webmesh_vdi.Prelude.Bytes.{Bytes}
use webmesh_vdi.Rbac.Types.{UserRole}
use webmesh_vdi.Secrets.{
  SecretRead, secret, secret_not_found, read_error, SecretEngine, call_lock, call_read, call_write,
  call_release, OneWrite, read_only, read_write, Disciplined, locked-Disciplined, locked,
  write_back,
}
use webmesh_vdi.Local.User.{User}
use webmesh_vdi.Local.Passwd.{Result, ok, err, user_exists}
use webmesh_vdi.Local.Encoding.{IsStorable}
use webmesh_vdi.Local.Refinement.{
  Represents, has_user, lookup_user, found_or_missing, reads_refine, add_refines,
}
use webmesh_vdi.Local.Provider.{
  passwd, done, failed, of_passwd, with_passwd_file, get_user, update_passwd_file, rewrite_file,
  create_user, update_user, delete_user, FoundUser, found_user, finish_get_user, check_password,
  authenticate,
}

update_passwd_file-OneWrite :
    (e : SecretEngine) (res : Result Bytes) → OneWrite (update_passwd_file e res).1
unfolding update_passwd_file write_back
update_passwd_file-OneWrite e (ok new_file) = read_write new_file
update_passwd_file-OneWrite e (err cause) = read_only

rewrite_file-OneWrite :
    (e : SecretEngine) (read : SecretRead) (change : Bytes → Result Bytes)
    → OneWrite (rewrite_file e read change).1
unfolding rewrite_file
rewrite_file-OneWrite e (secret file) change = update_passwd_file-OneWrite e (change file)
rewrite_file-OneWrite e secret_not_found change = read_only
rewrite_file-OneWrite e read_error change = read_only

-- Whatever the engine answers, creating, updating and deleting a user asks for the lock first, makes
-- no other call without it, and otherwise gives it back as the last call, after one read and at most
-- one write.
pub local_calls-Disciplined :
    (e : SecretEngine) (user : User) (username : Bytes)
    → Disciplined e (create_user e user).1
      × Disciplined e (update_user e user).1
      × Disciplined e (delete_user e username).1
unfolding create_user update_user delete_user
local_calls-Disciplined e user username = (
  locked-Disciplined e _ _ (rewrite_file-OneWrite e e.read _),
  locked-Disciplined e _ _ (rewrite_file-OneWrite e e.read _),
  locked-Disciplined e _ _ (rewrite_file-OneWrite e e.read _),
)

-- Where the engine gives the lock, holds a file that represents a list of users and takes the write,
-- creating a storable user under a new name writes a file that represents the list with the user at
-- its end, and under a name in use it writes nothing and reports that the user exists.
pub create_user_refines :
    (e : SecretEngine) {file : Bytes} {us : List User} (u : User)
    → e.lock_ok ≡ true
    → e.write_ok ≡ true
    → e.read ≡ secret file
    → Represents file us
    → IsStorable u
    → ((has_user u.username us ≡ true)
        × (create_user e u
            ≡ (failed (passwd user_exists), call_lock ∷ call_read ∷ call_release ∷ [])))
      ⊎ ((has_user u.username us ≡ false)
          × ((file' : Bytes) × (create_user e u
                ≡ (done tt, call_lock ∷ call_read ∷ call_write file' ∷ call_release ∷ []))
              × Represents file' (us ++ u ∷ [])))
unfolding create_user locked rewrite_file update_passwd_file write_back
create_user_refines e u l w f r s = elim (add_refines u r s) [
  | inl (taken, refused) ↦ inl (taken, rw (l, f, refused))
  | inr (fresh, (file', written, represents)) ↦
      inr (fresh, (file', rw (l, f, written, w), represents))
]

module _ (password_matches : String → Bytes → Bool) where
  -- What a login answers for the user that was looked up.
  LoggedIn : Option User → Option (List UserRole) → String → FoundUser → Type 0
  LoggedIn o roles password found =
      (u : User) × (all : List UserRole) × (o ≡ some u)
      × (password_matches password u.password_hash ≡ true)
      × (roles ≡ some all)
      × (found ≡ found_user all u)

  check_password_sound :
      (o : Option User) (roles : Option (List UserRole)) (password : String) (found : FoundUser)
      → check_password password_matches roles password (of_passwd (found_or_missing o)) ≡ done found
      → LoggedIn o roles password found
  unfolding check_password of_passwd finish_get_user LoggedIn
  check_password_sound none roles password found h = cc h
  check_password_sound (some u) none password found h =
      elim (Bool-cases (password_matches password u.password_hash)) [
        | inl m ↦ cc (rw m at h)
        | inr m ↦ cc (rw m at h)
      ]
  check_password_sound (some u) (some all) password found h =
      elim (Bool-cases (password_matches password u.password_hash)) [
        | inl m ↦ (u, all, refl, m, refl, cc (rw m at h))
        | inr m ↦ cc (rw m at h)
      ]

  check_password_complete :
      (o : Option User) (roles : Option (List UserRole)) (password : String) (found : FoundUser)
      → LoggedIn o roles password found
      → check_password password_matches roles password (of_passwd (found_or_missing o)) ≡ done found
  unfolding check_password of_passwd finish_get_user LoggedIn
  check_password_complete o roles password found (u, all, e, p, q, f) = rw (e, q) (rw (p, f))

  -- Over a file that represents a list of users, a login succeeds exactly when the list has the name,
  -- the password matches that user's hash, and the roles of the cluster can be read; the result has
  -- the user's name and those roles that the user's groups name.
  pub authenticate_iff :
      (roles : Option (List UserRole)) {file : Bytes} {us : List User} (n : Bytes)
      (password : String) (found : FoundUser)
      → Represents file us
      → (authenticate password_matches roles (secret file) n password ≡ done found) ↔ (
          (u : User) × (all : List UserRole) × (lookup_user n us ≡ some u)
          × (password_matches password u.password_hash ≡ true)
          × (roles ≡ some all)
          × (found ≡ found_user all u))
  unfolding authenticate get_user with_passwd_file LoggedIn
  authenticate_iff roles {file} {us} n password found r =
      let o = lookup_user n us in
      rw (reads_refine n r).1 (
        check_password_sound o roles password found,
        check_password_complete o roles password found,
      )
