-- ===== src/Local/Changes.antt =====
-- The updating and the deleting operation of the passwd file against the list of users.
use webmesh_vdi.Prelude.{
  ◌≡◌, refl, sym, ◌∙◌, ◌⊎◌, inl, inr, Bool, true, false, List, [], ◌∷◌, ◌++◌, map, All, Bool-cases,
}
use mathlib.Core.List.{append-nil}
use webmesh_vdi.Prelude.Bytes.{Bytes, bytes_eq}
use webmesh_vdi.Prelude.Lines.{unlines}
use webmesh_vdi.Local.User.{User, user_line, encode}
use webmesh_vdi.Local.Passwd.{
  ok, err, user_not_found, fill_in, update_lines, update_user_in_buffer, finish_scan, finish_update,
  delete_lines, delete_user_in_buffer,
}
use webmesh_vdi.Local.Encoding.{IsStorable, parse_line-user_line}
use webmesh_vdi.Local.Refinement.{
  has_user, replace_user, remove_user, Distinct, Represents, scan-Represents, append_line, if-false,
  same_name,
}

filled_name :
    (u v : User) → bytes_eq v.username u.username ≡ true → v.username ≡ (fill_in u v).username
unfolding fill_in
filled_name u v e = same_name e

has_user-replace_user :
    (n : Bytes) (u : User) (us : List User) → has_user n (replace_user u us) ≡ has_user n us
unfolding bytes_eq fill_in
has_user-replace_user n u [] = refl
has_user-replace_user n u (v ∷ us) = elim (Bool-cases (bytes_eq v.username u.username)) [
  | inl e ↦ rw e (rw (filled_name u v e))
  | inr e ↦ rw e (rw (has_user-replace_user n u us))
]

Distinct-replace_user : (u : User) (us : List User) → Distinct us → Distinct (replace_user u us)
Distinct-replace_user u [] d = tt
Distinct-replace_user u (v ∷ us) (d, ds) = elim (Bool-cases (bytes_eq v.username u.username)) [
  | inl e ↦ rw e (rw (sym (filled_name u v e)) d, ds)
  | inr e ↦ rw e (has_user-replace_user v.username u us ∙ d, Distinct-replace_user u us ds)
]

-- The user with its empty fields filled in can be stored.
abbrev pub FillsIn : User → User → Type 0
FillsIn u v = bytes_eq v.username u.username ≡ true → IsStorable (fill_in u v)

IsStorable-replace_user :
    (u : User) (us : List User)
    → All IsStorable us
    → All (FillsIn u) us
    → All IsStorable (replace_user u us)
IsStorable-replace_user u [] h k = tt
IsStorable-replace_user u (v ∷ us) (h, hs) (k, ks) =
    elim (Bool-cases (bytes_eq v.username u.username)) [
      | inl e ↦ rw e (k e, hs)
      | inr e ↦ rw e (h, IsStorable-replace_user u us hs ks)
    ]

keep_lines_lem :
    (u : User) (us : List User) (buf : Bytes) (b : Bool)
    → All IsStorable us
    → has_user u.username us ≡ false
    → update_lines u (map user_line us) buf b ≡ (buf ++ unlines (map user_line us), b)
unfolding update_lines unlines
keep_lines_lem u [] buf b h k = rw (append-nil buf)
keep_lines_lem u (v ∷ us) buf b (s, h) k =
    let skip : bytes_eq v.username u.username ≡ false =
      (if-false {b = bytes_eq v.username u.username} k).0 in
    rw (parse_line-user_line v s, update_lines)
      (rw (skip) (
        rw
          (keep_lines_lem u us (buf ++ encode v) b h
            ((if-false {b = bytes_eq v.username u.username} k).1))
          (rw (append_line buf v (unlines (map user_line us))))))

update_lines_lem :
    (u : User) (us : List User) (buf : Bytes)
    → All IsStorable us
    → Distinct us
    → update_lines u (map user_line us) buf false
      ≡ (buf ++ unlines (map user_line (replace_user u us)), has_user u.username us)
unfolding update_lines unlines
update_lines_lem u [] buf h k = rw (append-nil buf)
update_lines_lem u (v ∷ us) buf (s, h) (d, ds) =
    rw (parse_line-user_line v s, update_lines)
      (elim (Bool-cases (bytes_eq v.username u.username)) [
        | inl e ↦ rw e (
            rw
              (keep_lines_lem (fill_in u v) us (buf ++ encode (fill_in u v)) true h
                (rw (sym (filled_name u v e)) d))
              (rw (append_line buf (fill_in u v) (unlines (map user_line us)))))
        | inr e ↦ rw e (
            rw (update_lines_lem u us (buf ++ encode v) h ds)
              (rw (append_line buf v (unlines (map user_line (replace_user u us))))))
      ])

-- Updating a user of a file that represents a list is refused exactly for a name that is not
-- there; otherwise the new file represents the list with that user replaced, its empty fields
-- filled in, if the result is storable.
pub update_refines :
    {file : Bytes} {us : List User} (u : User)
    → Represents file us
    → All (FillsIn u) us
    → ((has_user u.username us ≡ false) × (update_user_in_buffer file u ≡ err user_not_found))
      ⊎ ((has_user u.username us ≡ true)
          × ((file' : Bytes) × (update_user_in_buffer file u ≡ ok file')
              × Represents file' (replace_user u us)))
unfolding update_user_in_buffer
update_refines {file} {us} u r k = elim (Bool-cases (has_user u.username us)) [
  | inl e ↦ inr (
    e,
    (
      unlines (map user_line (replace_user u us)),
      rw (scan-Represents r, update_lines_lem u us [] r.storable r.distinct, e)
          (unfold finish_update in refl),
      record {
        content = refl;
        storable = IsStorable-replace_user u us r.storable k;
        distinct = Distinct-replace_user u us r.distinct;
      },
    ),
  )
  | inr e ↦ inl (
    e,
    rw (scan-Represents r, update_lines_lem u us [] r.storable r.distinct, e)
        (unfold finish_update in refl),
  )
]

has_user-remove_user :
    (n m : Bytes) (us : List User) → has_user n us ≡ false → has_user n (remove_user m us) ≡ false
has_user-remove_user n m [] h = refl
has_user-remove_user n m (v ∷ us) h =
    let (differs, rest) = if-false {b = bytes_eq v.username n} h in
    elim (Bool-cases (bytes_eq v.username m)) [
      | inl e ↦ rw e (has_user-remove_user n m us rest)
      | inr e ↦ rw e (rw differs (has_user-remove_user n m us rest))
    ]

Distinct-remove_user : (n : Bytes) (us : List User) → Distinct us → Distinct (remove_user n us)
Distinct-remove_user n [] d = tt
Distinct-remove_user n (v ∷ us) (d, ds) = elim (Bool-cases (bytes_eq v.username n)) [
  | inl e ↦ rw e (Distinct-remove_user n us ds)
  | inr e ↦ rw e (has_user-remove_user v.username n us d, Distinct-remove_user n us ds)
]

IsStorable-remove_user :
    (n : Bytes) (us : List User) → All IsStorable us → All IsStorable (remove_user n us)
IsStorable-remove_user n [] h = tt
IsStorable-remove_user n (v ∷ us) (h, hs) = elim (Bool-cases (bytes_eq v.username n)) [
  | inl e ↦ rw e (IsStorable-remove_user n us hs)
  | inr e ↦ rw e (h, IsStorable-remove_user n us hs)
]

delete_lines_lem :
    (n : Bytes) (us : List User) (buf : Bytes)
    → All IsStorable us
    → delete_lines n (map user_line us) buf ≡ buf ++ unlines (map user_line (remove_user n us))
unfolding delete_lines unlines
delete_lines_lem n [] buf h = sym (append-nil buf)
delete_lines_lem n (v ∷ us) buf (s, h) =
    rw (parse_line-user_line v s, delete_lines)
      (elim (Bool-cases (bytes_eq v.username n)) [
        | inl e ↦ rw e (delete_lines_lem n us buf h)
        | inr e ↦ rw e (
            rw (delete_lines_lem n us (buf ++ encode v) h)
              (rw (append_line buf v (unlines (map user_line (remove_user n us))))))
      ])

removed_name : (n : Bytes) (us : List User) → has_user n (remove_user n us) ≡ false
removed_name n [] = refl
removed_name n (v ∷ us) = elim (Bool-cases (bytes_eq v.username n)) [
  | inl e ↦ rw e (removed_name n us)
  | inr e ↦ rw e (rw e (removed_name n us))
]

-- Deleting a name from a file that represents a list always succeeds, the new file represents the
-- list without that name, and the name is no longer in it.
pub delete_refines :
    {file : Bytes} {us : List User} (n : Bytes)
    → Represents file us
    → (file' : Bytes) × (delete_user_in_buffer file n ≡ ok file')
      × Represents file' (remove_user n us)
      × (has_user n (remove_user n us) ≡ false)
unfolding delete_user_in_buffer
delete_refines {file} {us} n r = (
  unlines (map user_line (remove_user n us)),
  rw (scan-Represents r, delete_lines_lem n us [] r.storable) (unfold finish_scan in refl),
  record {
    content = refl;
    storable = IsStorable-remove_user n us r.storable;
    distinct = Distinct-remove_user n us r.distinct;
  },
  removed_name n us,
)
