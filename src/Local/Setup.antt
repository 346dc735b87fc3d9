-- ===== src/Local/Setup.antt =====
-- pkg/auth/providers/local/reconcile.go: the first line of the passwd file.
use webmesh_vdi.Prelude.{◌≡◌, refl, sym, ap, true, Option, none, some, [], ◌∷◌, ◌++◌}
use mathlib.Core.List.{append_assoc}
use webmesh_vdi.Prelude.Bytes.{Bytes, codes, join}
use webmesh_vdi.Prelude.Lines.{newline, unlines}
use webmesh_vdi.Secrets.{
  SecretRead, secret, secret_not_found, read_error, SecretEngine, call_read, call_write, write_back,
}
use webmesh_vdi.Local.User.{User, colon, user_line}
use webmesh_vdi.Local.Encoding.{IsStorable}
use webmesh_vdi.Local.Refinement.{Represents}
use webmesh_vdi.Local.Provider.{done, failed, read_failed, write_failed, hash_failed, Stored}

unfoldable pub admin_line : Bytes → Bytes → Bytes
admin_line role hash = codes "admin" ++ colon ∷ (role ++ colon ∷ (hash ++ newline ∷ []))

-- The hash is `none` where hashing the password fails.
unfoldable pub write_admin : SecretEngine → Bytes → Option Bytes → Stored
write_admin e role none = (failed hash_failed, call_read ∷ [])
write_admin e role (some hash) =
    let (result, calls) = write_back e (done tt) (failed write_failed) (admin_line role hash) in
    (result, call_read ∷ calls)

unfoldable pub reconcile_read : SecretEngine → Bytes → Option Bytes → SecretRead → Stored
reconcile_read e role hash (secret file) = (done tt, call_read ∷ [])
reconcile_read e role hash secret_not_found = write_admin e role hash
reconcile_read e role hash read_error = (failed read_failed, call_read ∷ [])

-- Reconcile, which takes no lock; the role is the administrators'.
unfoldable pub reconcile : SecretEngine → Bytes → Option Bytes → Stored
reconcile e role hash = reconcile_read e role hash e.read

abbrev pub admin_user : Bytes → Bytes → User
admin_user role hash = record { username = codes "admin"; groups = role ∷ []; password_hash = hash }

admin_line_lem :
    (role hash : Bytes) → admin_line role hash ≡ unlines (user_line (admin_user role hash) ∷ [])
unfolding admin_line unlines user_line join
admin_line_lem role hash =
    ap (λ t. codes "admin" ++ colon ∷ t) (sym (append_assoc role (colon ∷ hash) (newline ∷ [])))

-- Where there is no file, the hash is made and the write succeeds, Reconcile writes a file that holds
-- exactly the administrator, if their line can be stored.
pub reconcile-Represents :
    (e : SecretEngine) (role hash : Bytes)
    → e.read ≡ secret_not_found
    → e.write_ok ≡ true
    → IsStorable (admin_user role hash)
    → (file : Bytes) × (reconcile e role (some hash) ≡ (done tt, call_read ∷ call_write file ∷ []))
      × Represents file (admin_user role hash ∷ [])
unfolding reconcile reconcile_read write_admin write_back
reconcile-Represents e role hash r w s = (
  admin_line role hash,
  rw (r, w) refl,
  record { content = admin_line_lem role hash; storable = (s, tt); distinct = (refl, tt) },
)
