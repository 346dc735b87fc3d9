-- ===== src/Local/User.antt =====
-- pkg/auth/providers/local/types.go: a user of the passwd file and its line. Texts are byte lists.
use webmesh_vdi.Prelude.{ℕ, Option, none, some, List, [], ◌∷◌, ◌++◌}
use webmesh_vdi.Prelude.Bytes.{Bytes, split_on, join}
use webmesh_vdi.Prelude.Lines.{newline}

abbrev pub colon : ℕ
colon = b':'

abbrev pub comma : ℕ
comma = b','

pub record User : Type 0 where
  pub username : Bytes
  pub groups : List Bytes
  pub password_hash : Bytes

-- The line of Encode, without its newline.
unfoldable pub user_line : User → Bytes
user_line u = u.username ++ colon ∷ (join comma u.groups ++ colon ∷ u.password_hash)

unfoldable pub encode : User → Bytes
encode u = user_line u ++ newline ∷ []

-- `none` is the error for fewer than three fields.
unfoldable pub parse_fields : List Bytes → Option User
parse_fields (username ∷ groups ∷ hash ∷ rest) = some (record {
  username = username;
  groups = split_on comma groups;
  password_hash = join colon (hash ∷ rest);
})
parse_fields _ = none

unfoldable pub parse_user : Bytes → Option User
parse_user text = parse_fields (split_on colon text)
