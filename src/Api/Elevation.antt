-- ===== src/Api/Elevation.antt =====
-- No request to create or change users and roles hands out more than the requesting user has.
use webmesh_vdi.Prelude.{
  String, ◌≡◌, ◌⊎◌, inl, inr, Bool, true, false, Option, none, some, List, [], ◌∷◌, arith, Any,
}
use mathlib.Core.Path.{subst}
use webmesh_vdi.Rbac.Rule.{Rule, Compile}
use webmesh_vdi.Rbac.Types.{UserRole, User, ApiAction}
use webmesh_vdi.Rbac.Evaluate.{rewrite_default, evaluate_rule, evaluate_user}
use webmesh_vdi.Rbac.Includes.{user_includes_rule}
use webmesh_vdi.Rbac.Escalation.{Known, user_includes_rule_sound}
use webmesh_vdi.Api.Request.{
  Request, RequestObject, create_user, update_user, create_role, update_role, create_role_rules,
  update_role_rules,
}
use webmesh_vdi.Api.Cluster.{DesktopApi, new_resource_getter}
use webmesh_vdi.Api.Privilege.{
  allow, get_role_by_name, includes_rules, includes_roles, check_roles, check_object,
  deny_user_elevate_perms, allow_same_user,
}
use webmesh_vdi.Api.Grants.Types.{
  OverrideFunc, same_user, ExtraCheckFunc, privilege, MethodPermissions, MethodGrants, find_key,
}
use webmesh_vdi.Api.Grants.Table.{router_grant_requirements}
use webmesh_vdi.Api.Permission.{served, override_of, validate_user_grants}
use webmesh_vdi.Api.Served.{Granted, served_iff}

-- The routes and methods that write users and roles with their permissions.
abbrev pub WritesPermissions : Request → Type 0
WritesPermissions r =
    ((r.path ≡ "/api/users") × (r.method ≡ "POST"))
    ⊎ ((r.path ≡ "/api/users/{user}") × (r.method ≡ "PUT"))
    ⊎ ((r.path ≡ "/api/roles") × (r.method ≡ "POST"))
    ⊎ ((r.path ≡ "/api/roles/{role}") × (r.method ≡ "PUT"))

-- The rules that a request object hands out: those of the named roles that exist, or its own.
abbrev RolesGive : DesktopApi → List String → Rule → Type 0
RolesGive d names rule =
    (roles : List UserRole) × (d.roles ≡ some roles)
    × Any
        (λ name.
          (role : UserRole) × (get_role_by_name roles name ≡ some role)
          × Any (λ x. x ≡ rule) role.rules)
        names

abbrev pub Gives : DesktopApi → Option RequestObject → Rule → Type 0
Gives d (some (create_user q)) rule = RolesGive d q.roles rule
Gives d (some (update_user q)) rule = RolesGive d q.roles rule
Gives d (some (create_role q)) rule = Any (λ x. x ≡ rule) (create_role_rules q)
Gives d (some (update_role q)) rule = Any (λ x. x ≡ rule) (update_role_rules q)
Gives d _ rule = ⊥

-- The grant has the extra check, and its override is missing or the one for the same user.
needs_check : Option OverrideFunc → Option ExtraCheckFunc → Bool
needs_check none (some privilege) = true
needs_check (some same_user) (some privilege) = true
needs_check _ _ = false

needs_check_cases :
    (o : Option OverrideFunc) (x : Option ExtraCheckFunc)
    → needs_check o x ≡ true
    → (x ≡ some privilege) × ((o ≡ none) ⊎ (o ≡ some same_user))
unfolding needs_check
needs_check_cases o x h = ground arith

route_needs_check : Option MethodGrants → String → Bool
route_needs_check none method = false
route_needs_check (some grants) method = elim (find_key method grants) [
  | none ↦ false
  | some grant ↦ needs_check grant.override_func grant.extra_check_func
]

writes_need_check :
    (r : Request)
    → WritesPermissions r
    → route_needs_check (find_key r.path router_grant_requirements) r.method ≡ true
unfolding route_needs_check needs_check find_key router_grant_requirements
writes_need_check r (inl (p, m)) = rw (p, m)
writes_need_check r (inr (inl (p, m))) = rw (p, m)
writes_need_check r (inr (inr (inl (p, m)))) = rw (p, m)
writes_need_check r (inr (inr (inr (p, m)))) = rw (p, m)

module _ (compile : Compile) (d : DesktopApi) (user : User) where
  includes_rules_lem :
      (rules : List Rule) (rule : Rule)
      → includes_rules compile d user rules ≡ true
      → Any (λ x. x ≡ rule) rules
      → user_includes_rule compile user rule (new_resource_getter d) ≡ true
  unfolding includes_rules
  includes_rules_lem [] rule h m = absurd m
  includes_rules_lem (x ∷ rules) rule h (inl e) =
      subst (λ y. user_includes_rule compile user y (new_resource_getter d) ≡ true) e (ground arith)
  includes_rules_lem (x ∷ rules) rule h (inr m) = includes_rules_lem rules rule (ground arith) m

  includes_roles_lem :
      (roles : List UserRole) (names : List String) (rule : Rule)
      → includes_roles compile d user roles names ≡ true
      → Any
          (λ name.
            (role : UserRole) × (get_role_by_name roles name ≡ some role)
            × Any (λ x. x ≡ rule) role.rules)
          names
      → user_includes_rule compile user rule (new_resource_getter d) ≡ true
  unfolding includes_roles
  includes_roles_lem roles [] rule h m = absurd m
  includes_roles_lem roles (name ∷ names) rule h (inl (role, e, m)) =
      includes_rules_lem role.rules rule (ground arith) m
  includes_roles_lem roles (name ∷ names) rule h (inr m) =
      includes_roles_lem roles names rule (ground arith) m

  check_roles_lem :
      (names : List String) (rule : Rule)
      → check_roles compile d user names ≡ allow
      → RolesGive d names rule
      → user_includes_rule compile user rule (new_resource_getter d) ≡ true
  unfolding check_roles
  check_roles_lem names rule h (roles, e, m) =
      includes_roles_lem roles names rule (let h' = rw e at h in ground arith) m

  check_object_lem :
      (o : Option RequestObject) (rule : Rule)
      → check_object compile d user o ≡ allow
      → Gives d o rule
      → user_includes_rule compile user rule (new_resource_getter d) ≡ true
  unfolding check_object
  check_object_lem (some (create_user q)) rule h m = check_roles_lem q.roles rule h m
  check_object_lem (some (update_user q)) rule h m = check_roles_lem q.roles rule h m
  check_object_lem (some (create_role q)) rule h m =
      includes_rules_lem (create_role_rules q) rule (ground arith) m
  check_object_lem (some (update_role q)) rule h m =
      includes_rules_lem (update_role_rules q) rule (ground arith) m
  check_object_lem _ rule h m = absurd m

  -- The path is none of those on which the check is skipped.
  writes_not-mfa :
      (r : Request)
      → WritesPermissions r
      → deny_user_elevate_perms compile d user r ≡ allow
      → check_object compile d user r.object ≡ allow
  unfolding deny_user_elevate_perms
  writes_not-mfa r (inl (p, m)) h = rw p at h
  writes_not-mfa r (inr (inl (p, m))) h = rw p at h
  writes_not-mfa r (inr (inr (inl (p, m)))) h = rw p at h
  writes_not-mfa r (inr (inr (inr (p, m)))) h = rw p at h

  same_user_checked :
      (r : Request) (owner : Bool)
      → allow_same_user compile d user r ≡ some (true, owner)
      → deny_user_elevate_perms compile d user r ≡ allow
  unfolding allow_same_user
  same_user_checked r owner h = ground arith

  Granted-checked :
      (r : Request) (grant : MethodPermissions)
      → needs_check grant.override_func grant.extra_check_func ≡ true
      → Granted compile d user r grant
      → deny_user_elevate_perms compile d user r ≡ allow
  unfolding override_of
  Granted-checked r grant n (inr (declined, (permitted, inl none_set))) =
      cc (none_set, (needs_check_cases _ _ n).0)
  Granted-checked r grant n (inr (declined, (permitted, inr passed))) = passed
  Granted-checked r grant n (inl (f, owner, set, passed)) =
      elim (needs_check_cases grant.override_func grant.extra_check_func n).1 [
        | inl unset ↦ cc (unset, set)
        | inr same ↦
            let which : f ≡ same_user = cc (set, same) in
            same_user_checked r owner
              (subst (λ g. override_of compile d user r g ≡ some (true, owner)) which passed)
      ]

  served_checked :
      (r : Request)
      → WritesPermissions r
      → (validate_user_grants compile d user r).response ≡ served
      → check_object compile d user r.object ≡ allow
  unfolding route_needs_check
  served_checked r w h =
      let (grants, grant, e, f, g) = (served_iff compile d user r).0 h in
      let n = rw (e, route_needs_check) at (writes_need_check r w) in
      writes_not-mfa r w (Granted-checked r grant (rw f at n) g)

  -- A served request to create or change users or roles hands out no rule beyond the requesting
  -- user: every action that such a rule allows is allowed to the user, if the action's name is empty
  -- or among the roles or the templates that exist. (The getter of the users lists none.)
  pub no_elevation :
      (r : Request) (rule : Rule) (a : ApiAction)
      → WritesPermissions r
      → (validate_user_grants compile d user r).response ≡ served
      → Gives d r.object rule
      → (evaluate_rule compile rule a).0 ≡ true
      → Known (new_resource_getter d) (rewrite_default a)
      → (evaluate_user compile user a).0 ≡ true
  no_elevation r rule a w h gives e k =
      user_includes_rule_sound compile user rule (new_resource_getter d) a
        (check_object_lem r.object rule (served_checked r w h) gives) e k
