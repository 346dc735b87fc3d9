-- ===== src/Local/Encoding.antt =====
-- The line of a user parses back to the user.
use webmesh_vdi.Prelude.{◌≡◌, ◌≢◌, refl, some, List, [], ◌∷◌, ◌++◌, arith, All, All-append, false}
use webmesh_vdi.Prelude.Bytes.{
  Bytes, Free, bytes_eq, split_on, join, join-split_on, split_on-ne-nil, split_on-append,
  split_on-join,
}
use webmesh_vdi.Prelude.Lines.{IsLine}
use webmesh_vdi.Local.User.{User, colon, comma, user_line, parse_fields, parse_user}
use webmesh_vdi.Local.Passwd.{parse_line}

-- A user that its line can carry: no field has a separator, there is a group, and the line is one
-- for the scanner.
pub record IsStorable (u : User) : Type 0 where
  pub username : Free colon u.username
  pub some_group : u.groups ≢ []
  pub groups_colon : All (Free colon) u.groups
  pub groups_comma : All (Free comma) u.groups
  pub line : IsLine (user_line u)

Free-join : (ps : List Bytes) → All (Free colon) ps → Free colon (join comma ps)
unfolding join
Free-join [] h = tt
Free-join (p ∷ []) h = h.0
Free-join (p ∷ q ∷ ps) h =
    All-append _ p (comma ∷ join comma (q ∷ ps)) h.0 ((λ e. omega arith), Free-join (q ∷ ps) h.1)

parse_fields_lem :
    (username groups : Bytes) (rest : List Bytes)
    → rest ≢ []
    → parse_fields (username ∷ groups ∷ rest)
      ≡ some (record {
        username = username;
        groups = split_on comma groups;
        password_hash = join colon rest;
      })
unfolding parse_fields
parse_fields_lem username groups [] h = absurd (h refl)
parse_fields_lem username groups (x ∷ rest) h = refl

-- ParseUser of the line of a user is that user, if the user has a group, no field but the hash has a
-- colon, no group has a comma, and the line is one for the scanner.
pub parse_user-user_line : (u : User) → IsStorable u → parse_user (user_line u) ≡ some u
unfolding parse_user user_line
parse_user-user_line u s = rw (
  split_on-append colon u.username (join comma u.groups ++ colon ∷ u.password_hash) s.username,
  split_on-append colon (join comma u.groups) u.password_hash (Free-join u.groups s.groups_colon),
  parse_fields_lem u.username (join comma u.groups) (split_on colon u.password_hash)
      (split_on-ne-nil colon u.password_hash),
  split_on-join comma u.groups s.some_group s.groups_comma,
  join-split_on colon u.password_hash,
)

nonempty : (n rest : Bytes) → bytes_eq (n ++ colon ∷ rest) [] ≡ false
unfolding bytes_eq
nonempty [] rest = refl
nonempty (c ∷ n) rest = refl

user_line-nonempty : (u : User) → bytes_eq (user_line u) [] ≡ false
unfolding user_line
user_line-nonempty u = nonempty u.username (join comma u.groups ++ colon ∷ u.password_hash)

-- Its line is not skipped by the loops over the file.
pub parse_line-user_line : (u : User) → IsStorable u → parse_line (user_line u) ≡ some u
unfolding parse_line
parse_line-user_line u s = rw (user_line-nonempty u) (parse_user-user_line u s)
