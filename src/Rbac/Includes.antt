-- ===== src/Rbac/Includes.antt =====
-- pkg/util/rbac/rule_includes.go: does a set of rules cover another rule?
use webmesh_vdi.Prelude.{
  String, Bool, true, false, not, ◌&&◌, ◌||◌, Option, none, some, List, [], ◌∷◌, if◌then◌else◌, map,
}
use mathlib.Core.Option
use text.Mathlib.Text.{◌==◌}
use webmesh_vdi.Rbac.Rule.{
  Rule, Compile, deep_equal, has_verb, has_resource_type, has_namespace, matches_resource_name,
  resource_all, resource_roles, resource_users, resource_templates,
}
use webmesh_vdi.Rbac.Types.{UserRole, User}

-- types.ResourceGetter: the names that each getter returns, none for its error. The lists do not
-- change while one rule is checked.
pub record ResourceGetter : Type 0 where
  pub get_roles : Option (List UserRole)
  pub get_users : Option (List User)
  pub get_templates : Option (List String)

-- The names that the loops over the roles and the users read.
abbrev pub role_names : ResourceGetter → Option (List String)
role_names getter = Option.map (map (λ (x : UserRole). x.name)) getter.get_roles

abbrev pub user_names : ResourceGetter → Option (List String)
user_names getter = Option.map (map (λ (x : User). x.name)) getter.get_users

unfoldable pub has_all_verbs : Rule → List String → Bool
has_all_verbs r [] = true
has_all_verbs r (verb ∷ verbs) = if not (has_verb r verb) then false else has_all_verbs r verbs

unfoldable pub has_all_namespaces : Rule → List String → Bool
has_all_namespaces r [] = true
has_all_namespaces r (ns ∷ nss) =
    if not (has_namespace r ns) then false else has_all_namespaces r nss

module _ (compile : Compile) where
  -- The loop over the names of one getter: no name that `rule` matches and `r` does not.
  unfoldable pub covers_names : Rule → Rule → List String → Bool
  covers_names r rule [] = true
  covers_names r rule (name ∷ names) =
      if matches_resource_name compile rule name && not (matches_resource_name compile r name)
      then false
      else covers_names r rule names

  -- The getter is only called for its resource, and its error denies.
  unfoldable pub covers_getter : Rule → Rule → Bool → Option (List String) → Bool
  covers_getter r rule false got = true
  covers_getter r rule true none = false
  covers_getter r rule true (some names) = covers_names r rule names

  -- One round of the loop over the resources.
  unfoldable pub covers_resource : Rule → Rule → ResourceGetter → String → Bool
  covers_resource r rule getter resource =
      if not (has_resource_type r resource)
      then false
      else if not (
          covers_getter r rule (resource == resource_all || resource == resource_roles)
            (role_names getter))
      then false
      else if not (
          covers_getter r rule (resource == resource_all || resource == resource_users)
            (user_names getter))
      then false
      else covers_getter r rule (resource == resource_all || resource == resource_templates)
          getter.get_templates

  unfoldable pub covers_resources : Rule → Rule → ResourceGetter → List String → Bool
  covers_resources r rule getter [] = true
  covers_resources r rule getter (resource ∷ resources) =
      if not (covers_resource r rule getter resource)
      then false
      else covers_resources r rule getter resources

  unfoldable pub rule_includes : Rule → Rule → ResourceGetter → Bool
  rule_includes r rule getter =
      if deep_equal r rule
      then true
      else if not (has_all_verbs r rule.verbs)
      then false
      else if not (has_all_namespaces r rule.namespaces)
      then false
      else covers_resources r rule getter rule.resources

  unfoldable pub rules_include_rule : List Rule → Rule → ResourceGetter → Bool
  rules_include_rule [] rule getter = false
  rules_include_rule (r ∷ rs) rule getter =
      if rule_includes r rule getter then true else rules_include_rule rs rule getter

  unfoldable pub role_includes_rule : UserRole → Rule → ResourceGetter → Bool
  role_includes_rule role rule getter = rules_include_rule role.rules rule getter

  unfoldable pub roles_include_rule : List UserRole → Rule → ResourceGetter → Bool
  roles_include_rule [] rule getter = false
  roles_include_rule (role ∷ roles) rule getter =
      if role_includes_rule role rule getter then true else roles_include_rule roles rule getter

  unfoldable pub user_includes_rule : User → Rule → ResourceGetter → Bool
  user_includes_rule u rule getter = roles_include_rule u.roles rule getter
