-- ===== src/Local/Refinement.antt =====
-- The passwd file as a list of users with distinct names, and the operations against that list.
use webmesh_vdi.Prelude.{
  ◌≡◌, refl, sym, ◌∙◌, ap, ◌⊎◌, inl, inr, Bool, true, false, Option, none, some, List, [], ◌∷◌,
  ◌++◌, map, arith, All, All-append, Bool-cases, if◌then◌else◌,
}
use mathlib.Core.List.{append_assoc, append-nil, map-append}
use webmesh_vdi.Prelude.Bytes.{Bytes, bytes_eq, bytes_eq_iff}
use webmesh_vdi.Prelude.Lines.{newline, unlines, unlines-append, IsLine, scan, scan-unlines}
use webmesh_vdi.Local.User.{User, user_line, encode}
use webmesh_vdi.Local.Passwd.{
  Result, ok, err, user_exists, user_not_found, add_lines, add_user_to_buffer, all_users_lines,
  get_all_users_from_buffer, find_user, get_user_from_buffer, fill_in, finish_add, finish_get,
  finish_scan,
}
use webmesh_vdi.Local.Encoding.{IsStorable, parse_line-user_line}

-- The abstract operations.
abbrev pub lookup_user : Bytes → List User → Option User
lookup_user n [] = none
lookup_user n (v ∷ us) = if bytes_eq v.username n then some v else lookup_user n us

abbrev pub has_user : Bytes → List User → Bool
has_user n [] = false
has_user n (v ∷ us) = if bytes_eq v.username n then true else has_user n us

abbrev pub replace_user : User → List User → List User
replace_user u [] = []
replace_user u (v ∷ us) =
    if bytes_eq v.username u.username then fill_in u v ∷ us else v ∷ replace_user u us

abbrev pub remove_user : Bytes → List User → List User
remove_user n [] = []
remove_user n (v ∷ us) = if bytes_eq v.username n then remove_user n us else v ∷ remove_user n us

abbrev pub Distinct : List User → Type 0
Distinct [] = Unit
Distinct (v ∷ us) = (has_user v.username us ≡ false) × Distinct us

-- The file holds exactly the lines of the users, each storable, under distinct names.
pub record Represents (file : Bytes) (us : List User) : Type 0 where
  pub content : file ≡ unlines (map user_line us)
  pub storable : All IsStorable us
  pub distinct : Distinct us

All-lines : (us : List User) → All IsStorable us → All IsLine (map user_line us)
All-lines [] h = tt
All-lines (u ∷ us) (s, h) = (s.line, All-lines us h)

pub scan-Represents :
    {file : Bytes} {us : List User} → Represents file us → scan file ≡ (map user_line us, true)
scan-Represents {file} {us} r =
    rw r.content (scan-unlines (map user_line us) (All-lines us r.storable))

pub append_line :
    (buf : Bytes) (u : User) (rest : Bytes)
    → (buf ++ encode u) ++ rest ≡ buf ++ (user_line u ++ newline ∷ rest)
unfolding encode
append_line buf u rest =
    append_assoc buf (user_line u ++ newline ∷ []) rest
    ∙ ap (◌++◌ buf) (append_assoc (user_line u) (newline ∷ []) rest)

all_users_lines_lem : (us : List User) → All IsStorable us → all_users_lines (map user_line us) ≡ us
unfolding all_users_lines
all_users_lines_lem [] h = refl
all_users_lines_lem (u ∷ us) (s, h) =
    rw (parse_line-user_line u s, all_users_lines) (ap (◌∷◌ u) (all_users_lines_lem us h))

find_user_lem :
    (n : Bytes) (us : List User)
    → All IsStorable us
    → find_user n (map user_line us) ≡ lookup_user n us
unfolding find_user
find_user_lem n [] h = refl
find_user_lem n (u ∷ us) (s, h) =
    rw (parse_line-user_line u s, find_user) (rw (find_user_lem n us h))

abbrev pub found_or_missing : Option User → Result User
found_or_missing none = err user_not_found
found_or_missing (some u) = ok u

looked_up : (o : Option User) → finish_get o true ≡ found_or_missing o
unfolding finish_get
looked_up none = refl
looked_up (some u) = refl

-- Listing the users of a file that represents a list gives that list, and reading one user gives
-- the user of that name, or the error for a missing one.
pub reads_refine :
    {file : Bytes} {us : List User} (n : Bytes)
    → Represents file us
    → (get_all_users_from_buffer file ≡ ok us)
      × (get_user_from_buffer file n ≡ found_or_missing (lookup_user n us))
unfolding get_all_users_from_buffer get_user_from_buffer
reads_refine {file} {us} n r = (
  rw (scan-Represents r) (unfold finish_scan in ap ok (all_users_lines_lem us r.storable)),
  rw (scan-Represents r, find_user_lem n us r.storable) (looked_up (lookup_user n us)),
)

pub add_lines_lem :
    (u : User) (us : List User) (buf : Bytes)
    → All IsStorable us
    → add_lines u (map user_line us) buf
      ≡ (if has_user u.username us then none else some (buf ++ unlines (map user_line us)))
unfolding add_lines unlines
add_lines_lem u [] buf h = ap some (sym (append-nil buf))
add_lines_lem u (v ∷ us) buf (s, h) =
    rw (parse_line-user_line v s, add_lines)
      (elim (Bool-cases (bytes_eq v.username u.username)) [
        | inl e ↦ rw e
        | inr e ↦ rw e (
            rw (add_lines_lem u us (buf ++ encode v) h)
              (rw (append_line buf v (unlines (map user_line us)))))
      ])

pub has_user-append :
    (n : Bytes) (us : List User) (u : User)
    → has_user n us ≡ false
    → bytes_eq u.username n ≡ false
    → has_user n (us ++ u ∷ []) ≡ false
has_user-append n [] u h k = rw k
has_user-append n (v ∷ us) u h k = elim (Bool-cases (bytes_eq v.username n)) [
  | inl e ↦ grind (arith, has_user-append n us u)
  | inr e ↦ grind (arith, has_user-append n us u)
]

pub if-false : {b c : Bool} → (if b then true else c) ≡ false → (b ≡ false) × (c ≡ false)
if-false {b = false} h = (refl, h)
if-false {b = true} h = absurd (cc (h))

pub same_name : {m n : Bytes} → bytes_eq m n ≡ true → m ≡ n
same_name {m} {n} e = ground (arith, bytes_eq_iff m n)

differs_sym : (m n : Bytes) → bytes_eq m n ≡ false → bytes_eq n m ≡ false
differs_sym m n h = elim (Bool-cases (bytes_eq n m)) [
  | inl e ↦ ground (arith, bytes_eq_iff m n, bytes_eq_iff n m)
  | inr e ↦ e
]

Distinct-append :
    (us : List User) (u : User)
    → Distinct us
    → has_user u.username us ≡ false
    → Distinct (us ++ u ∷ [])
Distinct-append [] u d h = (refl, tt)
Distinct-append (v ∷ us) u (d, ds) h = (
  has_user-append v.username us u d (differs_sym v.username u.username (if-false h).0),
  Distinct-append us u ds (if-false h).1,
)

pub added :
    {file : Bytes} {us : List User} (u : User)
    → IsStorable u
    → Represents file us
    → has_user u.username us ≡ false
    → Represents (unlines (map user_line us) ++ encode u) (us ++ u ∷ [])
unfolding encode
added {file} {us} u s r e = record {
  content = sym (
      rw (map-append user_line us (u ∷ []))
        (unlines-append (map user_line us) (user_line u ∷ []) ∙ (unfold unlines in refl)));
  storable = All-append _ us (u ∷ []) r.storable (s, tt);
  distinct = Distinct-append us u r.distinct e;
}

-- Adding a user to a file that represents a list is refused exactly for a name in use; otherwise
-- the new file represents the list with the user at its end, if the user is storable.
pub add_refines :
    {file : Bytes} {us : List User} (u : User)
    → Represents file us
    → IsStorable u
    → ((has_user u.username us ≡ true) × (add_user_to_buffer file u ≡ err user_exists))
      ⊎ ((has_user u.username us ≡ false)
          × ((file' : Bytes) × (add_user_to_buffer file u ≡ ok file')
              × Represents file' (us ++ u ∷ [])))
unfolding add_user_to_buffer
add_refines {file} {us} u r s = elim (Bool-cases (has_user u.username us)) [
  | inl e ↦
      inl
        (e, rw (scan-Represents r, add_lines_lem u us [] r.storable, e) (unfold finish_add in refl))
  | inr e ↦ inr (
    e,
    (
      unlines (map user_line us) ++ encode u,
      rw (scan-Represents r, add_lines_lem u us [] r.storable, e) (unfold finish_add in refl),
      added u s r e,
    ),
  )
]
