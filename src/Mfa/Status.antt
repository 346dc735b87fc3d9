-- ===== src/Mfa/Status.antt =====
-- Reading the status of a user after the data was updated or the user was deleted.
use webmesh_vdi.Prelude.{
  ◌≡◌, ◌≢◌, refl, sym, ◌∙◌, ap, Bool, true, false, List, [], ◌∷◌, ◌++◌, map, arith, All, Bool-cases,
  inl, inr,
}
use mathlib.Core.List.{append_assoc}
use mathlib.Core.Path.{subst}
use webmesh_vdi.Prelude.Bytes.{
  Bytes, Free, bytes_eq, has_prefix, has_prefix-append, split_on, split_on-append, split_on-Free,
}
use webmesh_vdi.Prelude.Lines.{
  newline, drop_cr, unlines, unlines-append, scan, IsLine, drop_cr-Free,
}
use webmesh_vdi.Mfa.Manager.{
  colon, bool_text, parse_bool, ok, err, user_not_found, status_line, find_line, read_fields,
  finish_status, get_user_status_from_reader, update_statuses, finish_update,
  update_user_status_in_reader, delete_user_from_reader,
}
use webmesh_vdi.Mfa.Scanned.{IsToken, scan-IsToken, scan-unlines-IsToken}
use webmesh_vdi.Mfa.Rewritten.{
  kept, touched, written, others, update_statuses_lem, delete_lines_lem, others-IsToken,
  written-IsToken,
}
use webmesh_vdi.Mfa.Found.{find_line-written, find_line-longer, find_line-others}

has_prefix-longer :
    (name suffix text : Bytes)
    → has_prefix text name ≡ false
    → has_prefix text (name ++ suffix) ≡ false
unfolding has_prefix
has_prefix-longer [] suffix text h = cc h
has_prefix-longer (c ∷ name) suffix [] h = refl
has_prefix-longer (c ∷ name) suffix (d ∷ text) h =
    ground (arith, has_prefix-longer name suffix text)

parse_bool-bool_text : (b : Bool) → parse_bool (bool_text b) ≡ b
unfolding parse_bool bool_text bytes_eq
parse_bool-bool_text true = refl
parse_bool-bool_text false = refl

Free-bool_text : (b : Bool) → Free colon (bool_text b)
unfolding bool_text
Free-bool_text true =
    ((λ e. omega arith), ((λ e. omega arith), ((λ e. omega arith), ((λ e. omega arith), tt))))
Free-bool_text false = (
  (λ e. omega arith),
  ((λ e. omega arith), ((λ e. omega arith), ((λ e. omega arith), ((λ e. omega arith), tt)))),
)

read_fields-status_line :
    (name secret : Bytes) (verified : Bool)
    → Free colon name
    → Free colon secret
    → read_fields (split_on colon (status_line name secret verified)) ≡ ok (secret, verified)
unfolding status_line read_fields
read_fields-status_line name secret verified h k = rw (
  split_on-append colon name (secret ++ colon ∷ bool_text verified) h,
  split_on-append colon secret (bool_text verified) k,
  split_on-Free colon (bool_text verified) (Free-bool_text verified),
  parse_bool-bool_text verified,
)

finish_written :
    (name line : Bytes) (ts : List Bytes)
    → finish_update line (update_statuses name line ts [] false) true
      ≡ ok (unlines (written name line ts))
unfolding written finish_update unlines
finish_written name line ts =
    rw (update_statuses_lem name line ts [] false) (elim (Bool-cases (touched name ts)) [
      | inl e ↦ rw (e, finish_update)
      | inr e ↦
          rw (e, finish_update)
            (rw (unlines-append (kept name line ts) (line ∷ [])) (
              ap ok (
                append_assoc (unlines (kept name line ts)) line (newline ∷ [])
                ∙ (unfold unlines in refl))))
    ])

-- What an update of data that scans without an error writes.
update_written :
    (name secret : Bytes) (verified : Bool) (stored : Bytes)
    → (scan stored).1 ≡ true
    → update_user_status_in_reader name secret verified stored
      ≡ ok (unlines (written name (status_line name secret verified) (scan stored).0))
unfolding update_user_status_in_reader
update_written name secret verified stored h =
    rw h (finish_written name (status_line name secret verified) (scan stored).0)

-- Reading a text that was written from tokens.
get_unlines :
    (name : Bytes) (ls : List Bytes)
    → All IsToken ls
    → get_user_status_from_reader name (unlines ls)
      ≡ finish_status (find_line name (map drop_cr ls)) true
unfolding get_user_status_from_reader
get_unlines name ls h = rw (scan-unlines-IsToken ls h)

delete_written :
    (name stored : Bytes)
    → (scan stored).1 ≡ true
    → delete_user_from_reader name stored ≡ ok (unlines (others name (scan stored).0))
unfolding delete_user_from_reader
delete_written name stored h = rw h (ap ok (delete_lines_lem name (scan stored).0 []))

status_line-nonempty : (name rest : Bytes) → bytes_eq (name ++ colon ∷ rest) [] ≡ false
unfolding bytes_eq
status_line-nonempty [] rest = refl
status_line-nonempty (c ∷ name) rest = refl

status_line-prefix :
    (name secret : Bytes) (verified : Bool)
    → has_prefix (status_line name secret verified) name ≡ true
unfolding status_line
status_line-prefix name secret verified =
    has_prefix-append name (colon ∷ (secret ++ colon ∷ bool_text verified))

longer_name :
    (name suffix rest : Bytes)
    → Free colon suffix
    → suffix ≢ []
    → has_prefix (name ++ colon ∷ rest) (name ++ suffix) ≡ false
unfolding has_prefix
longer_name [] [] rest f n = absurd (n refl)
longer_name [] (c ∷ suffix) rest f n = ground (arith, f.0)
longer_name (c ∷ name) suffix rest f n = ground (arith, longer_name name suffix rest f n)

status_line-longer :
    (name secret suffix : Bytes) (verified : Bool)
    → Free colon suffix
    → suffix ≢ []
    → has_prefix (status_line name secret verified) (name ++ suffix) ≡ false
unfolding status_line
status_line-longer name secret suffix verified f n =
    longer_name name suffix (secret ++ colon ∷ bool_text verified) f n

ok-inj : (s t : Bytes) → ok s ≡ ok t → s ≡ t
ok-inj s t h = cc h

-- What an update writes scans without an error in its turn.
pub update-scanned :
    (name secret : Bytes) (verified : Bool) (stored new : Bytes)
    → IsLine (status_line name secret verified)
    → (scan stored).1 ≡ true
    → update_user_status_in_reader name secret verified stored ≡ ok new
    → (scan new).1 ≡ true
update-scanned name secret verified stored new l h u =
    let line = status_line name secret verified in
    let ts = (scan stored).0 in
    let token : IsToken line = record { one_line = l.one_line; fits = l.fits } in
    let same = ok-inj _ _ (sym (update_written name secret verified stored h) ∙ u) in
    subst (λ s. (scan s).1 ≡ true) same
      (ap (λ p. p.1)
        (scan-unlines-IsToken (written name line ts)
          (written-IsToken name line ts token (scan-IsToken stored))))

-- Data that scans without an error can be updated, and then the user's status reads as the new
-- secret and flag, whatever the data held, if the name and the secret have no colon and the new line
-- is one for the scanner.
pub get-update :
    (name secret : Bytes) (verified : Bool) (stored : Bytes)
    → Free colon name
    → Free colon secret
    → IsLine (status_line name secret verified)
    → (scan stored).1 ≡ true
    → (new : Bytes) × (update_user_status_in_reader name secret verified stored ≡ ok new)
      × (get_user_status_from_reader name new ≡ ok (secret, verified))
unfolding status_line finish_status read_fields
get-update name secret verified stored f g l h =
    let line = status_line name secret verified in
    let ts = (scan stored).0 in
    let token : IsToken line = record { one_line = l.one_line; fits = l.fits } in
    let first =
      find_line-written name line ts (drop_cr-Free line l.no_cr)
        (status_line-nonempty name (secret ++ colon ∷ bool_text verified))
        (status_line-prefix name secret verified) in
    (
      unlines (written name line ts),
      update_written name secret verified stored h,
      get_unlines name (written name line ts)
            (written-IsToken name line ts token (scan-IsToken stored))
          ∙ (rw (first, finish_status) (read_fields-status_line name secret verified f g)),
    )

-- An update of data that scans without an error, whose new line is one for the scanner, succeeds and
-- loses every user whose name continues the name of the update by a nonempty suffix without a colon:
-- the status of the longer name then reads as not found, whatever the data held for it.
pub update_loses_longer :
    (name secret suffix : Bytes) (verified : Bool) (stored : Bytes)
    → Free colon suffix
    → suffix ≢ []
    → IsLine (status_line name secret verified)
    → (scan stored).1 ≡ true
    → (new : Bytes) × (update_user_status_in_reader name secret verified stored ≡ ok new)
      × (get_user_status_from_reader (name ++ suffix) new ≡ err user_not_found)
unfolding finish_status
update_loses_longer name secret suffix verified stored f n l h =
    let line = status_line name secret verified in
    let ts = (scan stored).0 in
    let token : IsToken line = record { one_line = l.one_line; fits = l.fits } in
    let lost =
      find_line-longer name (name ++ suffix) line ts (has_prefix-longer name suffix)
        (status_line-longer name secret suffix verified f n) in
    (
      unlines (written name line ts),
      update_written name secret verified stored h,
      get_unlines (name ++ suffix) (written name line ts)
            (written-IsToken name line ts token (scan-IsToken stored))
          ∙ (rw (lost, finish_status)),
    )

-- A user can be deleted from data that scans without an error, and then that user's status and the
-- status of every user whose name continues the name read as not found.
pub get-delete :
    (name suffix stored : Bytes)
    → (scan stored).1 ≡ true
    → (new : Bytes) × (delete_user_from_reader name stored ≡ ok new)
      × (get_user_status_from_reader (name ++ suffix) new ≡ err user_not_found)
unfolding finish_status
get-delete name suffix stored h =
    let ts = (scan stored).0 in
    let lost = find_line-others name (name ++ suffix) ts (has_prefix-longer name suffix) in
    (
      unlines (others name ts),
      delete_written name stored h,
      get_unlines (name ++ suffix) (others name ts) (others-IsToken name ts (scan-IsToken stored))
          ∙ (rw (lost, finish_status)),
    )
