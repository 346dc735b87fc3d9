-- ===== src/Groups/Webmesh.antt =====
-- pkg/auth/providers/webmesh/provider.go: the login with a token that the metadata service validates.
use webmesh_vdi.Prelude.{
  ℕ, ◌≡◌, ◌↔◌, ◌⊎◌, inl, inr, Bool, true, false, ◌||◌, ◌==◌, Option, none, some, List, [], ◌∷◌,
  ◌++◌, map, arith, Any, Bool-cases, if◌then◌else◌,
}
use webmesh_vdi.Prelude.Bytes.{Bytes, bytes_eq, codes}
use webmesh_vdi.Rbac.Types.{UserRole}
use webmesh_vdi.Local.Provider.{filter_user_roles_by_names, FoundUser}
use webmesh_vdi.Groups.Mapping.{GroupRole, string_slice_contains, group_list}
use webmesh_vdi.Groups.Login.{Among, contains_iff, filter_iff, append_one}

-- The claims of the metadata service.
pub record Validated : Type 0 where
  pub id : Bytes
  pub subject : Bytes
  pub groups : List Bytes

pub data WebmeshError : Type 0 where
  no_authorization : WebmeshError
  no_answer : WebmeshError
  bad_status : ℕ → WebmeshError
  bad_claims : WebmeshError
  no_roles : WebmeshError

pub data WebmeshResult : Type 0 where
  logged_in : FoundUser → WebmeshResult
  refused : WebmeshError → WebmeshResult

unfoldable pub any_group : List Bytes → List Bytes → Bool
any_group user_groups [] = false
any_group user_groups (g ∷ gs) = string_slice_contains user_groups g || any_group user_groups gs

unfoldable pub webmesh_bound : List Bytes → List Bytes → List GroupRole → List Bytes
webmesh_bound bound user_groups [] = bound
webmesh_bound bound user_groups (r ∷ roles) =
    webmesh_bound
      (if any_group user_groups (group_list r.annotation)
        then bound ++ codes r.role.name ∷ []
        else bound)
      user_groups roles

unfoldable pub webmesh_roles : List GroupRole → List Bytes → List UserRole
webmesh_roles roles user_groups =
    filter_user_roles_by_names (map (λ r. r.role) roles) (webmesh_bound [] user_groups roles)

unfoldable pub claims_name : Validated → Bytes
claims_name c = if bytes_eq c.id (codes ":sub") then c.subject else c.id

unfoldable pub with_roles : Validated → Option (List GroupRole) → WebmeshResult
with_roles c none = refused no_roles
with_roles c (some roles) =
    logged_in record { name = claims_name c; roles = webmesh_roles roles c.groups }

unfoldable pub with_claims : Option Validated → Option (List GroupRole) → WebmeshResult
unfolding with_roles
with_claims none roles = refused bad_claims
with_claims (some c) roles = with_roles c roles

-- The answer of the service: `none` for an error of the request, otherwise its status and its claims,
-- if its body has them.
unfoldable pub with_answer : Option (ℕ × Option Validated) → Option (List GroupRole) → WebmeshResult
unfolding with_claims
with_answer none roles = refused no_answer
with_answer (some (status, claims)) roles =
    if status == 200 then with_claims claims roles else refused (bad_status status)

-- Authenticate. The service and the cluster's roles are parameters.
unfoldable pub webmesh_authenticate :
    Bytes → (Bytes → Option (ℕ × Option Validated)) → Option (List GroupRole) → WebmeshResult
unfolding with_answer
webmesh_authenticate [] ask roles = refused no_authorization
webmesh_authenticate (c ∷ token) ask roles = with_answer (ask (c ∷ token)) roles

any_group_iff :
    (user_groups gs : List Bytes)
    → (any_group user_groups gs ≡ true) ↔ Any (λ g. Among g user_groups) gs
unfolding any_group
any_group_iff user_groups [] = ground arith
any_group_iff user_groups (g ∷ gs) =
    ground (arith, any_group_iff user_groups gs, contains_iff user_groups g)

webmesh_bound_iff :
    (roles : List GroupRole) (bound user_groups : List Bytes) (y : Bytes)
    → Among y (webmesh_bound bound user_groups roles) ↔ (
        Among y bound
        ⊎ Any
            (λ r.
              (codes r.role.name ≡ y) × Any (λ g. Among g user_groups) (group_list r.annotation))
            roles)
unfolding webmesh_bound
webmesh_bound_iff [] bound user_groups y = (inl, λ h. elim h [ inl k ↦ k | inr k ↦ absurd k ])
webmesh_bound_iff (r ∷ roles) bound user_groups y =
    let any = any_group_iff user_groups (group_list r.annotation) in
    elim (Bool-cases (any_group user_groups (group_list r.annotation))) [
      | inl e ↦
          let ih = webmesh_bound_iff roles (bound ++ codes r.role.name ∷ []) user_groups y in
          let one = append_one bound (codes r.role.name) y in
          rw e (
            λ h. elim (ih.0 h) [
              | inl k ↦ elim (one.0 k) [ inl w ↦ inl w | inr w ↦ inr (inl (w, any.0 e)) ]
              | inr k ↦ inr (inr k)
            ],
            λ h. elim h [
              | inl k ↦ ih.1 (inl (one.1 (inl k)))
              | inr k ↦ elim k [ inl w ↦ ih.1 (inl (one.1 (inr w.0))) | inr w ↦ ih.1 (inr w) ]
            ],
          )
      | inr e ↦
          let ih = webmesh_bound_iff roles bound user_groups y in
          rw e (
            λ h. elim (ih.0 h) [ inl k ↦ inl k | inr k ↦ inr (inr k) ],
            λ h. elim h [
              | inl k ↦ ih.1 (inl k)
              | inr k ↦ elim k [
                | inl w ↦ absurd (ground (arith, e, any.1 w.1))
                | inr w ↦ ih.1 (inr w)
              ]
            ],
          )
    ]

-- A login gives a role exactly when it is a role of the cluster and one of the cluster's roles with its
-- name lists a group of the user; unlike the other providers, the empty text counts as a group.
pub webmesh_roles_iff :
    (roles : List GroupRole) (user_groups : List Bytes) (role : UserRole)
    → Among role (webmesh_roles roles user_groups) ↔ (
        Among role (map (λ r. r.role) roles)
        × Any
            (λ r.
              (codes r.role.name ≡ codes role.name)
              × Any (λ g. Among g user_groups) (group_list r.annotation))
            roles)
unfolding webmesh_roles
webmesh_roles_iff roles user_groups role =
    let chosen = filter_iff (map (λ r. r.role) roles) (webmesh_bound [] user_groups roles) role in
    let names = webmesh_bound_iff roles [] user_groups (codes role.name) in
    (
      λ h. ((chosen.0 h).0, elim (names.0 (chosen.0 h).1) [ inl k ↦ absurd k | inr k ↦ k ]),
      λ h. chosen.1 (h.0, names.1 (inr h.1)),
    )
