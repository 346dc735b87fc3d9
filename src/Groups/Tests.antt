-- ===== src/Groups/Tests.antt =====
-- Tests of the mapping of groups to roles.
use webmesh_vdi.Prelude.{◌≡◌, ◌↔◌, inl, inr, refl, sym, ◌∙◌, some, List, [], ◌∷◌, Any}
use webmesh_vdi.Prelude.Bytes.{Bytes, codes, split_on, cons_head}
use webmesh_vdi.Rbac.Types.{UserRole}
use webmesh_vdi.Groups.Mapping.{
  GroupRole, text, items, other, no_claims, and_claim, login_roles, get_user_roles,
  group_claim_to_string_slice, claim_texts, get_username_from_claims, username_of_email, first_part,
}
use webmesh_vdi.Groups.Login.{Among, Bound, login_roles-get_user_roles}

abbrev launcher : UserRole
launcher = record { name = "launcher"; rules = [] }

abbrev staff_role : GroupRole
staff_role = record { role = launcher; annotation = some (codes "staff;guests") }

abbrev staff : List Bytes
staff = codes "staff" ∷ []

one_role :
    (r r' : GroupRole)
    → Among r (staff_role ∷ [])
    → Among r' (staff_role ∷ [])
    → codes r.role.name ≡ codes r'.role.name
    → r ≡ r'
one_role r r' (inl k) (inl k') e = sym k ∙ k'
one_role r r' (inr z) m e = absurd z
one_role r r' (inl k) (inr z) e = absurd z

login_roles-get_user_roles_example :
    (Among launcher (login_roles (staff_role ∷ []) staff)
      ↔ Any (λ r. (r.role ≡ launcher) × Bound staff r) (staff_role ∷ []))
    × (Among launcher (get_user_roles (staff_role ∷ []) staff)
        ↔ Any (λ r. (r.role ≡ launcher) × Bound staff r) (staff_role ∷ []))
login_roles-get_user_roles_example =
    login_roles-get_user_roles (staff_role ∷ []) staff launcher one_role

email_name :
    get_username_from_claims (some other) (some (text (codes "al@example.org"))) ≡ some (codes "al")
unfolding get_username_from_claims username_of_email split_on cons_head first_part
email_name = refl

groups_of_claim :
    group_claim_to_string_slice (items (and_claim (text (codes "staff")) no_claims)) ≡ some staff
unfolding group_claim_to_string_slice claim_texts
groups_of_claim = refl
