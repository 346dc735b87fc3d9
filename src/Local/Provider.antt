-- ===== src/Local/Provider.antt =====
-- pkg/auth/providers/local/util.go, secret_util.go, api.go and auth.go: the methods of the provider
-- over the passwd file in the secrets engine. A request's texts enter as their bytes.
use webmesh_vdi.Prelude.{
  String, Bool, not, Option, none, some, List, [], ◌∷◌, ◌++◌, map, if◌then◌else◌,
}
use text.Mathlib.Text.{◌==◌}
use webmesh_vdi.Prelude.Bytes.{Bytes, bytes_eq, codes}
use webmesh_vdi.Rbac.Types.{UserRole}
use webmesh_vdi.Api.Request.{CreateUserRequest, UpdateUserRequest}
use webmesh_vdi.Secrets.{
  SecretRead, secret, secret_not_found, read_error, SecretEngine, SecretCall, call_read, locked,
  write_back,
}
use webmesh_vdi.Local.User.{User}
use webmesh_vdi.Local.Passwd.{
  PasswdError, Result, ok, err, add_user_to_buffer, get_all_users_from_buffer, get_user_from_buffer,
  update_user_in_buffer, delete_user_in_buffer,
}

pub data ProviderError : Type 0 where
  passwd : PasswdError → ProviderError
  lock_failed read_failed write_failed hash_failed roles_failed : ProviderError
  invalid_credentials : ProviderError

pub data ProviderResult (A : Type 0) : Type 0 where
  done : A → ProviderResult A
  failed : ProviderError → ProviderResult A

unfoldable pub of_passwd : {A : Type 0} → Result A → ProviderResult A
of_passwd (ok a) = done a
of_passwd (err cause) = failed (passwd cause)

-- getPasswdFile: every error of the read, a missing secret included, is an error.
unfoldable pub with_passwd_file :
    {A : Type 0} → SecretRead → (Bytes → ProviderResult A) → ProviderResult A
with_passwd_file (secret file) rest = rest file
with_passwd_file secret_not_found rest = failed read_failed
with_passwd_file read_error rest = failed read_failed

unfoldable pub list_users : SecretRead → ProviderResult (List User)
list_users read = with_passwd_file read (λ file. of_passwd (get_all_users_from_buffer file))

unfoldable pub get_user : SecretRead → Bytes → ProviderResult User
get_user read username =
    with_passwd_file read (λ file. of_passwd (get_user_from_buffer file username))

abbrev pub Stored : Type 0
Stored = ProviderResult Unit × List SecretCall

unfoldable pub update_passwd_file : SecretEngine → Result Bytes → Stored
update_passwd_file e (err cause) = (failed (passwd cause), call_read ∷ [])
update_passwd_file e (ok new_file) =
    let (result, calls) = write_back e (done tt) (failed write_failed) new_file in
    (result, call_read ∷ calls)

-- The part of createUser, updateUser and deleteUser behind the lock.
unfoldable pub rewrite_file : SecretEngine → SecretRead → (Bytes → Result Bytes) → Stored
rewrite_file e (secret file) change = update_passwd_file e (change file)
rewrite_file e secret_not_found change = (failed read_failed, call_read ∷ [])
rewrite_file e read_error change = (failed read_failed, call_read ∷ [])

unfoldable pub create_user : SecretEngine → User → Stored
create_user e user =
    locked e (failed lock_failed) (rewrite_file e e.read (λ file. add_user_to_buffer file user))

unfoldable pub update_user : SecretEngine → User → Stored
update_user e user =
    locked e (failed lock_failed) (rewrite_file e e.read (λ file. update_user_in_buffer file user))

unfoldable pub delete_user : SecretEngine → Bytes → Stored
delete_user e username =
    locked e (failed lock_failed)
      (rewrite_file e e.read (λ file. delete_user_in_buffer file username))

-- The roles with one name, in the order of the cluster's roles.
unfoldable pub roles_named : List UserRole → Bytes → List UserRole
roles_named [] name = []
roles_named (role ∷ roles) name =
    let rest = roles_named roles name in
    if bytes_eq (codes role.name) name then role ∷ rest else rest

unfoldable pub filter_user_roles_by_names : List UserRole → List Bytes → List UserRole
filter_user_roles_by_names roles [] = []
filter_user_roles_by_names roles (name ∷ names) =
    roles_named roles name ++ filter_user_roles_by_names roles names

-- A VDIUser that the provider returns.
pub record FoundUser : Type 0 where
  pub name : Bytes
  pub roles : List UserRole

abbrev pub found_user : List UserRole → User → FoundUser
found_user roles user = record {
  name = user.username;
  roles = filter_user_roles_by_names roles user.groups;
}

-- The cluster's roles, `none` for the client's error.
abbrev pub ClusterRoles : Type 0
ClusterRoles = Option (List UserRole)

-- GetUsers asks for the roles first, GetUser for the user.
unfoldable pub list_found :
    List UserRole → ProviderResult (List User) → ProviderResult (List FoundUser)
list_found roles (done users) = done (map (found_user roles) users)
list_found roles (failed cause) = failed cause

unfoldable pub get_users_request : ClusterRoles → SecretRead → ProviderResult (List FoundUser)
get_users_request none read = failed roles_failed
get_users_request (some roles) read = list_found roles (list_users read)

unfoldable pub finish_get_user : ClusterRoles → ProviderResult User → ProviderResult FoundUser
finish_get_user roles (failed cause) = failed cause
finish_get_user none (done user) = failed roles_failed
finish_get_user (some roles) (done user) = done (found_user roles user)

unfoldable pub get_user_request : ClusterRoles → SecretRead → Bytes → ProviderResult FoundUser
get_user_request roles read username = finish_get_user roles (get_user read username)

abbrev pub requested_user : Bytes → List String → Bytes → User
requested_user username roles hash = record {
  username = username;
  groups = map codes roles;
  password_hash = hash;
}

-- common.HashPassword and common.PasswordMatchesHash, which call the bcrypt package.
module _ (hash_password : String → Option Bytes) where
  unfoldable pub create_user_request : SecretEngine → CreateUserRequest → Stored
  create_user_request e req = elim (hash_password req.password) [
    | none ↦ (failed hash_failed, [])
    | some hash ↦ create_user e (requested_user (codes req.username) req.roles hash)
  ]

  -- An empty password keeps the hash, an empty list keeps the groups.
  unfoldable pub update_user_request : SecretEngine → Bytes → UpdateUserRequest → Stored
  update_user_request e username req =
      if req.password == ""
      then update_user e (requested_user username req.roles [])
      else elim (hash_password req.password) [
        | none ↦ (failed hash_failed, [])
        | some hash ↦ update_user e (requested_user username req.roles hash)
      ]

module _ (password_matches : String → Bytes → Bool) where
  unfoldable pub check_password :
      ClusterRoles → String → ProviderResult User → ProviderResult FoundUser
  check_password roles password (failed cause) = failed cause
  check_password roles password (done user) =
      if not (password_matches password user.password_hash)
      then failed invalid_credentials
      else finish_get_user roles (done user)

  unfoldable pub authenticate :
      ClusterRoles → SecretRead → Bytes → String → ProviderResult FoundUser
  authenticate roles read username password = check_password roles password (get_user read username)
