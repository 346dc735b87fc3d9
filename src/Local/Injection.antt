-- ===== src/Local/Injection.antt =====
-- A role name with a newline in it: Encode does not check the fields, and the check of the request
-- looks for a colon in the user name only.
use webmesh_vdi.Prelude.{◌≡◌, sym, false, List, [], ◌∷◌, ◌++◌, map}
use mathlib.Core.List.{append_assoc}
use webmesh_vdi.Prelude.Bytes.{Bytes, bytes_eq, join}
use webmesh_vdi.Prelude.Lines.{newline, unlines}
use webmesh_vdi.Local.User.{User, colon, user_line, encode}
use webmesh_vdi.Local.Passwd.{ok, add_user_to_buffer, finish_add}
use webmesh_vdi.Local.Encoding.{IsStorable}
use webmesh_vdi.Local.Refinement.{
  has_user, Represents, scan-Represents, add_lines_lem, added, has_user-append,
}

-- A role name that ends the line of its user and starts one for a second user.
abbrev pub crafted_role : User → User → Bytes → Bytes → Bytes
crafted_role u v g g' = g ++ colon ∷ (u.password_hash ++ newline ∷ (v.username ++ colon ∷ g'))

abbrev pub crafted : User → User → Bytes → Bytes → User
crafted u v g g' = record {
  username = u.username;
  groups = crafted_role u v g g' ∷ [];
  password_hash = v.password_hash;
}

abbrev pub with_group : User → Bytes → User
with_group u g = record { username = u.username; groups = g ∷ []; password_hash = u.password_hash }

encode-crafted :
    (u v : User) (g g' : Bytes)
    → encode (crafted u v g g') ≡ encode (with_group u g) ++ encode (with_group v g')
unfolding encode user_line join
encode-crafted u v g g' = simp (append_assoc)

-- Adding a user whose one role is the crafted name, to a file that represents a list, succeeds and
-- gives a file that represents the list with two more users, the second one with a role and a name
-- of the writer's choice, if the two users could be stored one by one, their names differ, and the
-- list has neither name.
pub crafted_role_adds_two :
    {file : Bytes} {us : List User} (u v : User) (g g' : Bytes)
    → Represents file us
    → IsStorable (with_group u g)
    → IsStorable (with_group v g')
    → has_user u.username us ≡ false
    → has_user v.username us ≡ false
    → bytes_eq u.username v.username ≡ false
    → (file' : Bytes) × (add_user_to_buffer file (crafted u v g g') ≡ ok file')
      × Represents file' (us ++ with_group u g ∷ with_group v g' ∷ [])
unfolding add_user_to_buffer finish_add
crafted_role_adds_two {file} {us} u v g g' r s t h k d =
    let first : User = with_group u g in
    let second : User = with_group v g' in
    let one = added first s r h in
    let two = added second t one (has_user-append v.username us first k d) in
    (
      unlines (map user_line (us ++ first ∷ [])) ++ encode second,
      rw (scan-Represents r, add_lines_lem (crafted u v g g') us [] r.storable, h)
          (rw (
            encode-crafted u v g g',
            sym (append_assoc (unlines (map user_line us)) (encode first) (encode second)),
            one.content,
          )),
      rw (sym (append_assoc us (first ∷ []) (second ∷ []))) two,
    )
