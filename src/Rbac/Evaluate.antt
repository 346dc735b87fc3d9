-- ===== src/Rbac/Evaluate.antt =====
-- pkg/util/rbac/evaluate.go. The action is passed by pointer and EvaluateRule may rewrite it, so
-- each function returns the action beside its answer.
use webmesh_vdi.Prelude.{Bool, true, false, not, ◌&&◌, List, [], ◌∷◌, if◌then◌else◌}
use text.Mathlib.Text.{◌==◌}
use webmesh_vdi.Rbac.Rule.{
  Rule, Compile, has_verb, has_resource_type, has_namespace, matches_resource_name,
  resource_service_accounts, resource_templates,
}
use webmesh_vdi.Rbac.Types.{UserRole, User, ApiAction}

-- The rewriting of the default service account at the top of EvaluateRule.
unfoldable pub rewrite_default : ApiAction → ApiAction
rewrite_default action =
    if action.resource_type == resource_service_accounts && action.resource_name == "default"
    then record action { resource_name = ""; resource_type = resource_templates }
    else action

module _ (compile : Compile) where
  -- The tests of EvaluateRule behind the rewriting.
  unfoldable pub rule_allows : Rule → ApiAction → Bool
  rule_allows r action =
      if not (has_verb r action.verb)
      then false
      else if not (has_resource_type r action.resource_type)
      then false
      else if not (action.resource_name == "")
          && not (matches_resource_name compile r action.resource_name)
      then false
      else if not (action.resource_namespace == "")
          && not (has_namespace r action.resource_namespace)
      then false
      else true

  unfoldable pub evaluate_rule : Rule → ApiAction → Bool × ApiAction
  evaluate_rule r action = let action' = rewrite_default action in (rule_allows r action', action')

  unfoldable pub evaluate_rules : List Rule → ApiAction → Bool × ApiAction
  evaluate_rules [] action = (false, action)
  evaluate_rules (rule ∷ rules) action =
      let (found, action') = evaluate_rule rule action in
      let rest = evaluate_rules rules action' in if found then (true, action') else rest

  unfoldable pub evaluate_role : UserRole → ApiAction → Bool × ApiAction
  evaluate_role r action = evaluate_rules r.rules action

  unfoldable pub evaluate_roles : List UserRole → ApiAction → Bool × ApiAction
  evaluate_roles [] action = (false, action)
  evaluate_roles (role ∷ roles) action =
      let (found, action') = evaluate_role role action in
      let rest = evaluate_roles roles action' in if found then (true, action') else rest

  unfoldable pub evaluate_user : User → ApiAction → Bool × ApiAction
  evaluate_user u action = evaluate_roles u.roles action
