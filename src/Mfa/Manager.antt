-- ===== src/Mfa/Manager.antt =====
-- pkg/auth/mfa/mfa.go: the operations on the OTP data, one line per user, and the calls of the
-- secrets engine around them. Writes to a bytes.Buffer do not fail.
use webmesh_vdi.Prelude.{
  ℕ, Bool, true, false, ◌||◌, Option, none, some, List, [], ◌∷◌, ◌++◌, if◌then◌else◌,
}
use webmesh_vdi.Prelude.Bytes.{Bytes, bytes_eq, has_prefix, split_on}
use webmesh_vdi.Prelude.Lines.{newline, scan}

abbrev pub colon : ℕ
colon = b':'

abbrev pub true_text : Bytes
true_text = b't' ∷ b'r' ∷ b'u' ∷ b'e' ∷ []

abbrev pub false_text : Bytes
false_text = b'f' ∷ b'a' ∷ b'l' ∷ b's' ∷ b'e' ∷ []

-- The verb %t of the line.
unfoldable pub bool_text : Bool → Bytes
bool_text true = true_text
bool_text false = false_text

-- strconv.ParseBool, where an error reads as false: these six texts are true.
unfoldable pub parse_bool : Bytes → Bool
parse_bool s =
    bytes_eq s (b'1' ∷ [])
    || bytes_eq s (b't' ∷ [])
    || bytes_eq s (b'T' ∷ [])
    || bytes_eq s true_text
    || bytes_eq s (b'T' ∷ b'R' ∷ b'U' ∷ b'E' ∷ [])
    || bytes_eq s (b'T' ∷ b'r' ∷ b'u' ∷ b'e' ∷ [])

pub data MfaError : Type 0 where
  malformed user_not_found scan_failed lock_failed read_failed write_failed : MfaError

pub data MfaResult (A : Type 0) : Type 0 where
  ok : A → MfaResult A
  err : MfaError → MfaResult A

-- The line of one user, without its newline.
unfoldable pub status_line : Bytes → Bytes → Bool → Bytes
status_line name secret verified = name ++ colon ∷ (secret ++ colon ∷ bool_text verified)

-- The loop of getUserStatusFromReader, to the first line with the name as a prefix.
unfoldable pub find_line : Bytes → List Bytes → Option Bytes
find_line name [] = none
find_line name (text ∷ rest) =
    let later = find_line name rest in
    if bytes_eq text [] then later else if has_prefix text name then some text else later

unfoldable pub read_fields : List Bytes → MfaResult (Bytes × Bool)
read_fields (name ∷ secret ∷ verified ∷ rest) = ok (secret, parse_bool verified)
read_fields _ = err malformed

unfoldable pub finish_status : Option Bytes → Bool → MfaResult (Bytes × Bool)
finish_status (some text) complete = read_fields (split_on colon text)
finish_status none true = err user_not_found
finish_status none false = err scan_failed

unfoldable pub get_user_status_from_reader : Bytes → Bytes → MfaResult (Bytes × Bool)
get_user_status_from_reader name stored =
    let (found, complete) = scan stored in finish_status (find_line name found) complete

-- The loop of updateUserStatusInReader: `line` is the new line of the user.
unfoldable pub update_statuses : Bytes → Bytes → List Bytes → Bytes → Bool → Bytes × Bool
update_statuses name line [] new_data updated = (new_data, updated)
update_statuses name line (text ∷ rest) new_data updated = elim (bytes_eq text []) [
  | true ↦ update_statuses name line rest new_data updated
  | false ↦ elim (has_prefix text name) [
    | true ↦ update_statuses name line rest (new_data ++ line ++ newline ∷ []) true
    | false ↦ update_statuses name line rest (new_data ++ text ++ newline ∷ []) updated
  ]
]

unfoldable pub finish_update : Bytes → Bytes × Bool → Bool → MfaResult Bytes
finish_update line _ false = err scan_failed
finish_update line (new_data, true) true = ok new_data
finish_update line (new_data, false) true = ok (new_data ++ line ++ newline ∷ [])

unfoldable pub update_user_status_in_reader : Bytes → Bytes → Bool → Bytes → MfaResult Bytes
update_user_status_in_reader name secret verified stored =
    let (found, complete) = scan stored in
    let line = status_line name secret verified in
    finish_update line (update_statuses name line found [] false) complete

unfoldable pub delete_lines : Bytes → List Bytes → Bytes → Bytes
delete_lines name [] new_data = new_data
delete_lines name (text ∷ rest) new_data = elim (bytes_eq text [] || has_prefix text name) [
  | true ↦ delete_lines name rest new_data
  | false ↦ delete_lines name rest (new_data ++ text ++ newline ∷ [])
]

unfoldable pub delete_user_from_reader : Bytes → Bytes → MfaResult Bytes
delete_user_from_reader name stored =
    let (found, complete) = scan stored in
    let new_data = delete_lines name found [] in if complete then ok new_data else err scan_failed
