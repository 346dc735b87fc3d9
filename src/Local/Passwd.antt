-- ===== src/Local/Passwd.antt =====
-- pkg/auth/providers/local/passwd_util.go: the operations on the passwd file. Writes to a
-- bytes.Buffer do not fail.
use webmesh_vdi.Prelude.{Bool, true, false, Option, none, some, List, [], ◌∷◌, ◌++◌, if◌then◌else◌}
use webmesh_vdi.Prelude.Bytes.{Bytes, bytes_eq}
use webmesh_vdi.Prelude.Lines.{scan}
use webmesh_vdi.Local.User.{User, encode, parse_user}

pub data PasswdError : Type 0 where
  user_exists user_not_found scan_failed : PasswdError

pub data Result (A : Type 0) : Type 0 where
  ok : A → Result A
  err : PasswdError → Result A

-- The two `continue`s at the head of each loop: an empty line, and one that does not parse.
unfoldable pub parse_line : Bytes → Option User
parse_line text = if bytes_eq text [] then none else parse_user text

-- The loop of addUserToBuffer; `none` when a user of that name is found.
unfoldable pub add_lines : User → List Bytes → Bytes → Option Bytes
add_lines new_user [] buf = some buf
add_lines new_user (text ∷ rest) buf = elim (parse_line text) [
  | none ↦ add_lines new_user rest buf
  | some user ↦ elim (bytes_eq user.username new_user.username) [
    | true ↦ none
    | false ↦ add_lines new_user rest (buf ++ encode user)
  ]
]

-- The end of addUserToBuffer, after the loop and the scanner's error.
unfoldable pub finish_add : User → Option Bytes → Bool → Result Bytes
finish_add new_user none complete = err user_exists
finish_add new_user (some buf) true = ok (buf ++ encode new_user)
finish_add new_user (some buf) false = err scan_failed

unfoldable pub add_user_to_buffer : Bytes → User → Result Bytes
add_user_to_buffer file new_user =
    let (found, complete) = scan file in finish_add new_user (add_lines new_user found []) complete

unfoldable pub all_users_lines : List Bytes → List User
all_users_lines [] = []
all_users_lines (text ∷ rest) =
    let others = all_users_lines rest in
    elim (parse_line text) [ none ↦ others | some user ↦ user ∷ others ]

-- The check of the scanner's error after a loop.
unfoldable pub finish_scan : {A : Type 0} → A → Bool → Result A
finish_scan a true = ok a
finish_scan a false = err scan_failed

unfoldable pub get_all_users_from_buffer : Bytes → Result (List User)
get_all_users_from_buffer file =
    let (found, complete) = scan file in finish_scan (all_users_lines found) complete

-- The loop of getUserFromBuffer, to the first user of that name.
unfoldable pub find_user : Bytes → List Bytes → Option User
find_user username [] = none
find_user username (text ∷ rest) =
    let later = find_user username rest in
    elim (parse_line text) [
      | none ↦ later
      | some user ↦ if bytes_eq user.username username then some user else later
    ]

unfoldable pub finish_get : Option User → Bool → Result User
finish_get (some user) complete = ok user
finish_get none true = err user_not_found
finish_get none false = err scan_failed

unfoldable pub get_user_from_buffer : Bytes → Bytes → Result User
get_user_from_buffer file username =
    let (found, complete) = scan file in finish_get (find_user username found) complete

-- The fields that the update leaves empty are taken from the stored user.
unfoldable pub fill_in : User → User → User
fill_in updated user = record {
  username = updated.username;
  groups = elim updated.groups [ [] ↦ user.groups | g ∷ gs ↦ g ∷ gs ];
  password_hash = elim updated.password_hash [ [] ↦ user.password_hash | c ∷ cs ↦ c ∷ cs ];
}

-- The loop of updateUserInBuffer. The filling in changes `updated` itself, so it is carried on.
unfoldable pub update_lines : User → List Bytes → Bytes → Bool → Bytes × Bool
update_lines updated [] buf updated_user = (buf, updated_user)
update_lines updated (text ∷ rest) buf updated_user = elim (parse_line text) [
  | none ↦ update_lines updated rest buf updated_user
  | some user ↦ elim (bytes_eq user.username updated.username) [
    | true ↦ update_lines (fill_in updated user) rest (buf ++ encode (fill_in updated user)) true
    | false ↦ update_lines updated rest (buf ++ encode user) updated_user
  ]
]

-- The scanner's error, then the flag.
unfoldable pub finish_update : Bytes × Bool → Bool → Result Bytes
finish_update _ false = err scan_failed
finish_update (buf, false) true = err user_not_found
finish_update (buf, true) true = ok buf

unfoldable pub update_user_in_buffer : Bytes → User → Result Bytes
update_user_in_buffer file updated =
    let (found, complete) = scan file in
    finish_update (update_lines updated found [] false) complete

unfoldable pub delete_lines : Bytes → List Bytes → Bytes → Bytes
delete_lines username [] buf = buf
delete_lines username (text ∷ rest) buf = elim (parse_line text) [
  | none ↦ delete_lines username rest buf
  | some user ↦ elim (bytes_eq user.username username) [
    | true ↦ delete_lines username rest buf
    | false ↦ delete_lines username rest (buf ++ encode user)
  ]
]

unfoldable pub delete_user_in_buffer : Bytes → Bytes → Result Bytes
delete_user_in_buffer file username =
    let (found, complete) = scan file in finish_scan (delete_lines username found []) complete
