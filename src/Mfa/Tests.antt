-- ===== src/Mfa/Tests.antt =====
-- Runs of the OTP operations, and each theorem about them at an input.
use webmesh_vdi.Prelude.{◌≡◌, refl, true, false, [], ◌∷◌, ◌++◌, arith, inl}
use webmesh_vdi.Prelude.Bytes.{
  Bytes, Free, lacks, Free-of_lacks, bytes_eq, split_on, cons_head, has_prefix,
}
use webmesh_vdi.Prelude.Lines.{lines, scan, tokens, drop_cr, IsLine, newline, carriage_return}
use webmesh_vdi.Mfa.Manager.{
  ok, err, user_not_found, malformed, colon, bool_text, parse_bool, status_line, find_line,
  read_fields, finish_status, get_user_status_from_reader, update_statuses, finish_update,
  update_user_status_in_reader, delete_lines, delete_user_from_reader,
}
use webmesh_vdi.Secrets.{
  secret, SecretEngine, call_lock, call_read, call_write, call_release, Disciplined,
}
use webmesh_vdi.Mfa.Service.{
  get_user_mfa_status, set_user_mfa_status, delete_user_secret, get_mfa_users, mfa_users,
  user_entry, set_user, finish_users,
}
use webmesh_vdi.Mfa.Stored.{mfa_calls-Disciplined, get-set_user_mfa_status}
use webmesh_vdi.Mfa.Status.{get-update, update_loses_longer, get-delete}

mfa_run : Unit {0}
unfolding bytes_eq split_on cons_head has_prefix lines scan tokens drop_cr bool_text parse_bool
    status_line find_line read_fields finish_status get_user_status_from_reader update_statuses
    finish_update update_user_status_in_reader delete_lines delete_user_from_reader
mfa_run = tt

-- "alice:S:true", and the user al.
abbrev alice_data : Bytes
alice_data =
    b'a' ∷ b'l' ∷ b'i' ∷ b'c' ∷ b'e' ∷ b':' ∷ b'S' ∷ b':' ∷ b't' ∷ b'r' ∷ b'u' ∷ b'e' ∷ newline ∷ []

abbrev al : Bytes
al = b'a' ∷ b'l' ∷ []

abbrev ice : Bytes
ice = b'i' ∷ b'c' ∷ b'e' ∷ []

alice_read : get_user_status_from_reader (al ++ ice) alice_data ≡ ok (b'S' ∷ [], true)
unfolding mfa_run
alice_read = refl

-- al reads the secret of alice.
al_reads_alice : get_user_status_from_reader al alice_data ≡ ok (b'S' ∷ [], true)
unfolding mfa_run
al_reads_alice = refl

short_line : get_user_status_from_reader al (al ++ newline ∷ []) ≡ err malformed
unfolding mfa_run
short_line = refl

al-IsLine : IsLine (status_line al (b'T' ∷ []) false)
unfolding mfa_run lacks
al-IsLine = record {
  one_line = Free-of_lacks newline (status_line al (b'T' ∷ []) false) refl;
  no_cr = Free-of_lacks carriage_return (status_line al (b'T' ∷ []) false) refl;
  fits = omega arith;
}

al-Free : Free colon al
unfolding lacks
al-Free = Free-of_lacks colon al refl

secret-Free : Free colon (b'T' ∷ [])
unfolding lacks
secret-Free = Free-of_lacks colon (b'T' ∷ []) refl

ice-Free : Free colon ice
unfolding lacks
ice-Free = Free-of_lacks colon ice refl

alice_scanned : (scan alice_data).1 ≡ true
unfolding mfa_run
alice_scanned = refl

get-update_example :
    (new : Bytes) × (update_user_status_in_reader al (b'T' ∷ []) false alice_data ≡ ok new)
    × (get_user_status_from_reader al new ≡ ok (b'T' ∷ [], false))
get-update_example =
    get-update al (b'T' ∷ []) false alice_data al-Free secret-Free al-IsLine alice_scanned

update_loses_longer_example :
    (new : Bytes) × (update_user_status_in_reader al (b'T' ∷ []) false alice_data ≡ ok new)
    × (get_user_status_from_reader (al ++ ice) new ≡ err user_not_found)
update_loses_longer_example =
    update_loses_longer al (b'T' ∷ []) ice false alice_data ice-Free (λ e. cc e) al-IsLine
      alice_scanned

get-delete_example :
    (new : Bytes) × (delete_user_from_reader al alice_data ≡ ok new)
    × (get_user_status_from_reader (al ++ ice) new ≡ err user_not_found)
get-delete_example = get-delete al ice alice_data alice_scanned

abbrev engine : SecretEngine
engine = record { lock_ok = true; read = secret alice_data; write_ok = true }

mfa_calls-Disciplined_example :
    Disciplined engine (set_user_mfa_status engine al (b'T' ∷ []) true).1
    × Disciplined engine (delete_user_secret engine al).1
mfa_calls-Disciplined_example = mfa_calls-Disciplined engine al (b'T' ∷ []) true

get-set_user_mfa_status_example :
    (new : Bytes) × (set_user_mfa_status engine al (b'T' ∷ []) false
      ≡ (ok tt, call_lock ∷ call_read ∷ call_write new ∷ call_release ∷ []))
    × (get_user_mfa_status (secret new) al ≡ ok (b'T' ∷ [], false))
    × ((scan new).1 ≡ true)
get-set_user_mfa_status_example =
    get-set_user_mfa_status engine alice_data al (b'T' ∷ []) false refl refl (inl refl)
      alice_scanned al-Free secret-Free al-IsLine

users_listed : get_mfa_users (secret alice_data) ≡ ok ((al ++ ice, true) ∷ [])
unfolding mfa_run get_mfa_users mfa_users user_entry set_user finish_users
users_listed = refl
