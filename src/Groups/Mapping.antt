-- ===== src/Groups/Mapping.antt =====
-- How pkg/auth/providers/ldap and pkg/auth/providers/oidc map groups to roles: appendRoleIfBound, the
-- loops around it, GetUser and appendUser of ldap/users.go, and the claims of oidc/authenticate.go.
use webmesh_vdi.Prelude.{
  Bool, false, not, ◌&&◌, ◌||◌, Option, none, some, List, [], ◌∷◌, ◌++◌, map, if◌then◌else◌,
}
use webmesh_vdi.Prelude.Bytes.{Bytes, bytes_eq, codes, split_on}
use webmesh_vdi.Rbac.Types.{UserRole}
use webmesh_vdi.Local.Provider.{filter_user_roles_by_names, FoundUser}

-- A VDIRole with its annotation of groups, if it has one.
pub record GroupRole : Type 0 where
  pub role : UserRole
  pub annotation : Option Bytes

-- AuthGroupSeparator, a semicolon.
abbrev pub auth_group_separator : Prim.Native.Nat.ℕ
auth_group_separator = 59

unfoldable pub string_slice_contains : List Bytes → Bytes → Bool
string_slice_contains [] s = false
string_slice_contains (x ∷ ss) s = bytes_eq x s || string_slice_contains ss s

unfoldable pub append_string_if_missing : List Bytes → Bytes → List Bytes
append_string_if_missing sl x = if string_slice_contains sl x then sl else sl ++ x ∷ []

-- The groups of an annotation.
unfoldable pub group_list : Option Bytes → List Bytes
group_list none = []
group_list (some s) = split_on auth_group_separator s

-- A group that is not the empty text and that the user has.
unfoldable pub counts : List Bytes → Bytes → Bool
counts user_groups group = not (bytes_eq group []) && string_slice_contains user_groups group

unfoldable pub append_for_groups : List Bytes → List Bytes → Bytes → List Bytes → List Bytes
append_for_groups bound user_groups name [] = bound
append_for_groups bound user_groups name (g ∷ groups) =
    append_for_groups (if counts user_groups g then append_string_if_missing bound name else bound)
      user_groups name groups

unfoldable pub append_role_if_bound : List Bytes → List Bytes → GroupRole → List Bytes
append_role_if_bound bound user_groups r =
    append_for_groups bound user_groups (codes r.role.name) (group_list r.annotation)

unfoldable pub bound_roles : List Bytes → List Bytes → List GroupRole → List Bytes
bound_roles bound user_groups [] = bound
bound_roles bound user_groups (r ∷ roles) =
    bound_roles (append_role_if_bound bound user_groups r) user_groups roles

-- The roles that a login gives.
unfoldable pub login_roles : List GroupRole → List Bytes → List UserRole
login_roles roles user_groups =
    filter_user_roles_by_names (map (λ r. r.role) roles) (bound_roles [] user_groups roles)

unfoldable pub any_counts : List Bytes → List Bytes → Bool
any_counts user_groups [] = false
any_counts user_groups (g ∷ groups) = counts user_groups g || any_counts user_groups groups

-- The roles of the user that GetUser of the LDAP provider gives.
unfoldable pub get_user_roles : List GroupRole → List Bytes → List UserRole
get_user_roles [] user_groups = []
get_user_roles (r ∷ roles) user_groups =
    let rest = get_user_roles roles user_groups in
    if any_counts user_groups (group_list r.annotation) then r.role ∷ rest else rest

unfoldable pub has_role : List UserRole → UserRole → Bool
has_role [] role = false
has_role (r ∷ roles) role = bytes_eq (codes r.name) (codes role.name) || has_role roles role

-- A user that is found under another group gets the role too.
unfoldable pub append_user : List FoundUser → Bytes → UserRole → List FoundUser
append_user [] name role = record { name = name; roles = role ∷ [] } ∷ []
append_user (u ∷ users) name role =
    let rest = append_user users name role in
    if bytes_eq u.name name
    then (if has_role u.roles role
        then u ∷ users
        else record u { roles = u.roles ++ role ∷ [] } ∷ users)
    else u ∷ rest

-- A value of the claims of an ID token.
mutual
  pub data Claim : Type 0 where
    text : Bytes → Claim
    items : Claims → Claim
    other : Claim

  pub data Claims : Type 0 where
    no_claims : Claims
    and_claim : Claim → Claims → Claims

unfoldable pub claim_texts : Claims → Option (List Bytes)
claim_texts no_claims = some []
claim_texts (and_claim (text s) rest) = elim (claim_texts rest) [
  | some out ↦ some (s ∷ out)
  | none ↦ none
]
claim_texts (and_claim (items c) rest) = none
claim_texts (and_claim other rest) = none

-- groupClaimToStringSlice
unfoldable pub group_claim_to_string_slice : Claim → Option (List Bytes)
group_claim_to_string_slice (items c) = claim_texts c
group_claim_to_string_slice (text s) = none
group_claim_to_string_slice other = none

unfoldable pub first_part : List Bytes → Bytes
first_part [] = []
first_part (p ∷ ps) = p

-- The part of getUsernameFromClaims that reads the address: 64 is the sign "at".
unfoldable pub username_of_email : Option Claim → Option Bytes
username_of_email (some (text s)) = some (first_part (split_on 64 s))
username_of_email (some (items c)) = none
username_of_email (some other) = none
username_of_email none = none

-- getUsernameFromClaims of the claims preferred_username and email.
unfoldable pub get_username_from_claims : Option Claim → Option Claim → Option Bytes
get_username_from_claims (some (text s)) email = some s
get_username_from_claims (some (items c)) email = username_of_email email
get_username_from_claims (some other) email = username_of_email email
get_username_from_claims none email = username_of_email email
