-- ===== src/Local/Tests.antt =====
-- Runs of the passwd operations, and each theorem about them at an input.
use webmesh_vdi.Prelude.{
  String, ◌↔◌, List, [], ◌∷◌, ◌≡◌, refl, ◌⊎◌, Bool, true, false, some, [], ◌∷◌, ◌++◌, arith, length,
  ◌&&◌, ltb,
}
use webmesh_vdi.Prelude.Bytes.{
  Bytes, codes, lacks, Free-of_lacks, bytes_eq, split_on, join, cons_head,
}
use webmesh_vdi.Prelude.Lines.{
  lines, scan, tokens, drop_cr, unlines, IsLine, newline, carriage_return, max_scan_token_size,
}
use webmesh_vdi.Local.User.{User, colon, comma, user_line, encode, parse_fields, parse_user}
use webmesh_vdi.Local.Passwd.{
  ok, err, user_exists, user_not_found, parse_line, add_lines, finish_add, add_user_to_buffer,
  all_users_lines, finish_scan, get_all_users_from_buffer, find_user, finish_get,
  get_user_from_buffer, fill_in, update_lines, finish_update, update_user_in_buffer, delete_lines,
  delete_user_in_buffer,
}
use webmesh_vdi.Local.Encoding.{IsStorable, parse_user-user_line}
use webmesh_vdi.Local.Refinement.{
  Represents, lookup_user, has_user, replace_user, remove_user, found_or_missing, reads_refine,
  add_refines,
}
use webmesh_vdi.Local.Changes.{update_refines, delete_refines}
use webmesh_vdi.Rbac.Types.{UserRole}
use webmesh_vdi.Secrets.{
  secret, SecretEngine, call_lock, call_read, call_write, call_release, Disciplined,
}
use webmesh_vdi.Local.Provider.{
  passwd, done, failed, of_passwd, with_passwd_file, get_user, create_user, update_user,
  delete_user, found_user, finish_get_user, check_password, authenticate,
  filter_user_roles_by_names, roles_named,
}
use webmesh_vdi.Local.Service.{local_calls-Disciplined, create_user_refines, authenticate_iff}
use webmesh_vdi.Local.Injection.{crafted, with_group, crafted_role_adds_two}

passwd_run : Unit {0}
unfolding bytes_eq split_on join cons_head lines scan tokens drop_cr unlines user_line encode
    parse_fields parse_user parse_line add_lines finish_add add_user_to_buffer all_users_lines
    finish_scan get_all_users_from_buffer find_user finish_get get_user_from_buffer fill_in
    update_lines finish_update update_user_in_buffer delete_lines delete_user_in_buffer
passwd_run = tt

-- "al:g:x" and "bo:h:y".
abbrev al : User
al = record { username = b'a' ∷ b'l' ∷ []; groups = (b'g' ∷ []) ∷ []; password_hash = b'x' ∷ [] }

abbrev bo : User
bo = record { username = b'b' ∷ b'o' ∷ []; groups = (b'h' ∷ []) ∷ []; password_hash = b'y' ∷ [] }

abbrev cy : User
cy = record { username = b'c' ∷ b'y' ∷ []; groups = (b'k' ∷ []) ∷ []; password_hash = b'z' ∷ [] }

abbrev al_file : Bytes
al_file = b'a' ∷ b'l' ∷ b':' ∷ b'g' ∷ b':' ∷ b'x' ∷ newline ∷ []

one_group :
    (n g h : Bytes)
    → lacks colon n && lacks colon g && lacks comma g ≡ true
    → IsLine (user_line (record { username = n; groups = g ∷ []; password_hash = h }))
    → IsStorable (record { username = n; groups = g ∷ []; password_hash = h })
one_group n g h e l = record {
  username = Free-of_lacks colon n (ground arith);
  some_group = λ k. cc k;
  groups_colon = (Free-of_lacks colon g (ground arith), tt);
  groups_comma = (Free-of_lacks comma g (ground arith), tt);
  line = l;
}

is_line : Bytes → Bool
is_line s = lacks newline s && lacks carriage_return s && ltb (length s) max_scan_token_size

IsLine-of_is_line : (s : Bytes) → is_line s ≡ true → IsLine s
unfolding is_line
IsLine-of_is_line s h = record {
  one_line = Free-of_lacks newline s (ground arith);
  no_cr = Free-of_lacks carriage_return s (ground arith);
  fits = ground arith;
}

al-IsStorable : IsStorable al
unfolding passwd_run is_line lacks
al-IsStorable = one_group _ _ _ refl (IsLine-of_is_line _ refl)

bo-IsStorable : IsStorable bo
unfolding passwd_run is_line lacks
bo-IsStorable = one_group _ _ _ refl (IsLine-of_is_line _ refl)

cy-IsStorable : IsStorable cy
unfolding passwd_run is_line lacks
cy-IsStorable = one_group _ _ _ refl (IsLine-of_is_line _ refl)

al-Represents : Represents al_file (al ∷ [])
unfolding passwd_run
al-Represents = record { content = refl; storable = (al-IsStorable, tt); distinct = (refl, tt) }

add_bo :
    add_user_to_buffer al_file bo
    ≡ ok (al_file ++ b'b' ∷ b'o' ∷ b':' ∷ b'h' ∷ b':' ∷ b'y' ∷ newline ∷ [])
unfolding passwd_run
add_bo = refl

add_al_again : add_user_to_buffer al_file al ≡ err user_exists
unfolding passwd_run
add_al_again = refl

update_missing : update_user_in_buffer al_file bo ≡ err user_not_found
unfolding passwd_run
update_missing = refl

delete_al : delete_user_in_buffer al_file al.username ≡ ok []
unfolding passwd_run
delete_al = refl

parse_user-user_line_example : parse_user (user_line al) ≡ some al
parse_user-user_line_example = parse_user-user_line al al-IsStorable

reads_refine_example :
    (get_all_users_from_buffer al_file ≡ ok (al ∷ []))
    × (get_user_from_buffer al_file bo.username
        ≡ found_or_missing (lookup_user bo.username (al ∷ [])))
reads_refine_example = reads_refine bo.username al-Represents

-- A new hash for al, with the groups left out: they are filled in.
abbrev al_update : User
al_update = record { username = al.username; groups = []; password_hash = b'w' ∷ [] }

al_updated : IsStorable (fill_in al_update al)
unfolding passwd_run is_line lacks
al_updated = one_group _ _ _ refl (IsLine-of_is_line _ refl)

absent_bo : has_user bo.username (al ∷ []) ≡ false
unfolding bytes_eq
absent_bo = refl

absent_cy : has_user cy.username (al ∷ []) ≡ false
unfolding bytes_eq
absent_cy = refl

bo_not_cy : bytes_eq bo.username cy.username ≡ false
unfolding bytes_eq
bo_not_cy = refl

add_refines_example :
    ((has_user bo.username (al ∷ []) ≡ true) × (add_user_to_buffer al_file bo ≡ err user_exists))
    ⊎ ((has_user bo.username (al ∷ []) ≡ false)
        × ((file' : Bytes) × (add_user_to_buffer al_file bo ≡ ok file')
            × Represents file' ((al ∷ []) ++ bo ∷ [])))
add_refines_example = add_refines bo al-Represents bo-IsStorable

update_refines_example :
    ((has_user al_update.username (al ∷ []) ≡ false)
      × (update_user_in_buffer al_file al_update ≡ err user_not_found))
    ⊎ ((has_user al_update.username (al ∷ []) ≡ true)
        × ((file' : Bytes) × (update_user_in_buffer al_file al_update ≡ ok file')
            × Represents file' (replace_user al_update (al ∷ []))))
update_refines_example = update_refines al_update al-Represents ((λ e. al_updated), tt)

delete_refines_example :
    (file' : Bytes) × (delete_user_in_buffer al_file al.username ≡ ok file')
    × Represents file' (remove_user al.username (al ∷ []))
    × (has_user al.username (remove_user al.username (al ∷ [])) ≡ false)
delete_refines_example = delete_refines al.username al-Represents

crafted_role_adds_two_example :
    (file' : Bytes) × (add_user_to_buffer al_file (crafted bo cy (b'h' ∷ []) (b'k' ∷ []))
      ≡ ok file')
    × Represents file' ((al ∷ []) ++ with_group bo (b'h' ∷ []) ∷ with_group cy (b'k' ∷ []) ∷ [])
crafted_role_adds_two_example =
    crafted_role_adds_two bo cy (b'h' ∷ []) (b'k' ∷ []) al-Represents bo-IsStorable cy-IsStorable
      absent_bo absent_cy bo_not_cy

abbrev engine : SecretEngine
engine = record { lock_ok = true; read = secret al_file; write_ok = true }

abbrev matches : String → Bytes → Bool
matches password hash = bytes_eq (codes password) (b'x' ∷ []) && bytes_eq hash (b'x' ∷ [])

abbrev cluster_roles : List UserRole
cluster_roles = record { name = "g"; rules = [] } ∷ record { name = "h"; rules = [] } ∷ []

login :
    authenticate matches (some cluster_roles) (secret al_file) al.username "x"
    ≡ done (record { name = al.username; roles = record { name = "g"; rules = [] } ∷ [] })
unfolding passwd_run authenticate get_user with_passwd_file of_passwd check_password finish_get_user
    filter_user_roles_by_names roles_named
login = refl

local_calls-Disciplined_example :
    Disciplined engine (create_user engine bo).1
    × Disciplined engine (update_user engine bo).1
    × Disciplined engine (delete_user engine al.username).1
local_calls-Disciplined_example = local_calls-Disciplined engine bo al.username

create_user_refines_example :
    ((has_user bo.username (al ∷ []) ≡ true)
      × (create_user engine bo
          ≡ (failed (passwd user_exists), call_lock ∷ call_read ∷ call_release ∷ [])))
    ⊎ ((has_user bo.username (al ∷ []) ≡ false)
        × ((file' : Bytes) × (create_user engine bo
              ≡ (done tt, call_lock ∷ call_read ∷ call_write file' ∷ call_release ∷ []))
            × Represents file' ((al ∷ []) ++ bo ∷ [])))
create_user_refines_example =
    create_user_refines engine bo refl refl refl al-Represents bo-IsStorable

authenticate_iff_example :
    (authenticate matches (some cluster_roles) (secret al_file) al.username "x"
      ≡ done (found_user cluster_roles al))
    ↔ ((u : User) × (all : List UserRole) × (lookup_user al.username (al ∷ []) ≡ some u)
        × (matches "x" u.password_hash ≡ true)
        × (some cluster_roles ≡ some all)
        × (found_user cluster_roles al ≡ found_user all u))
authenticate_iff_example =
    authenticate_iff matches (some cluster_roles) al.username "x" (found_user cluster_roles al)
      al-Represents
