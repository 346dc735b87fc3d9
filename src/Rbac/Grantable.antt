-- ===== src/Rbac/Grantable.antt =====
-- Which rules UserIncludesRule accepts: a user's own, and more than it should for service accounts.
use webmesh_vdi.Prelude.{◌≡◌, inl, inr, true, List, [], ◌∷◌, arith, Any, Bool-cases}
use webmesh_vdi.Rbac.Rule.{Rule, Compile, deep_equal, has_resource_type, resource_service_accounts}
use webmesh_vdi.Rbac.Types.{UserRole, User}
use webmesh_vdi.Rbac.Includes.{
  ResourceGetter, has_all_verbs, has_all_namespaces, covers_getter, covers_resource,
  covers_resources, rule_includes, rules_include_rule, role_includes_rule, roles_include_rule,
  user_includes_rule,
}
use webmesh_vdi.Rbac.Equality.{SameRule, deep_equal_iff}

module _ (compile : Compile) where
  rules_include_rule_own :
      (rs : List Rule) (s : Rule) (g : ResourceGetter)
      → Any (λ r. SameRule r s) rs
      → rules_include_rule compile rs s g ≡ true
  unfolding rules_include_rule rule_includes
  rules_include_rule_own [] s g h = absurd h
  rules_include_rule_own (r ∷ rs) s g (inl e) = rw ((deep_equal_iff r s).1 e)
  rules_include_rule_own (r ∷ rs) s g (inr h) = ground (arith, rules_include_rule_own rs s g h)

  roles_include_rule_own :
      (roles : List UserRole) (s : Rule) (g : ResourceGetter)
      → Any (λ (role : UserRole). Any (λ r. SameRule r s) role.rules) roles
      → roles_include_rule compile roles s g ≡ true
  unfolding roles_include_rule role_includes_rule
  roles_include_rule_own [] s g h = absurd h
  roles_include_rule_own (role ∷ roles) s g (inl h) = rw (rules_include_rule_own role.rules s g h)
  roles_include_rule_own (role ∷ roles) s g (inr h) =
      ground (arith, roles_include_rule_own roles s g h)

  -- A rule that one of the user's roles has, with its fields in any order, is accepted, also when
  -- the getters fail.
  pub user_includes_rule_own :
      (u : User) (s : Rule) (g : ResourceGetter)
      → Any (λ (role : UserRole). Any (λ r. SameRule r s) role.rules) u.roles
      → user_includes_rule compile u s g ≡ true
  unfolding user_includes_rule
  user_includes_rule_own u s g h = roles_include_rule_own u.roles s g h

  -- The patterns of a rule about service accounts alone are never compared: the rule is included as
  -- soon as the verbs, the namespaces and the resource type are, whatever its patterns match.
  pub rule_includes-service_accounts :
      (r s : Rule) (g : ResourceGetter)
      → s.resources ≡ resource_service_accounts ∷ []
      → has_all_verbs r s.verbs ≡ true
      → has_all_namespaces r s.namespaces ≡ true
      → has_resource_type r resource_service_accounts ≡ true
      → rule_includes compile r s g ≡ true
  unfolding rule_includes covers_resources covers_resource covers_getter
  rule_includes-service_accounts r s g e v n t = elim (Bool-cases (deep_equal r s)) [
    | inl d ↦ rw d
    | inr d ↦ rw (d, v, n, e, t)
  ]
