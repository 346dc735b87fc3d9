-- ===== src/Rbac/Tests.antt =====
-- Runs of the role checks, and each theorem about them at an input.
use webmesh_vdi.Prelude.{
  ◌≡◌, refl, inl, inr, ◌↔◌, true, false, ◌||◌, some, none, [], ◌∷◌, Any, if◌then◌else◌,
}
use text.Mathlib.Text.{◌==◌}
use webmesh_vdi.Rbac.Rule.{
  Rule, Compile, deep_equal, has_verb, has_resource_type, has_namespace, pattern_matches,
  any_pattern_matches, matches_resource_name, same_items, str_slice_equal, has_item, is_empty,
}
use webmesh_vdi.Rbac.Types.{UserRole, User, resource_name_string}
use webmesh_vdi.Rbac.Evaluate.{
  rewrite_default, rule_allows, evaluate_rule, evaluate_rules, evaluate_role, evaluate_roles,
  evaluate_user,
}
use webmesh_vdi.Rbac.Filters.{
  template_action, namespace_action, keep, filter_templates, filter_user_namespaces,
  filter_user_service_accounts,
}
use webmesh_vdi.Rbac.Includes.{
  ResourceGetter, has_all_verbs, has_all_namespaces, covers_names, covers_getter, covers_resource,
  covers_resources, rule_includes, rules_include_rule, role_includes_rule, roles_include_rule,
  user_includes_rule,
}
use webmesh_vdi.Rbac.Filtered.{Has, filters_iff, use_templates_in, default_account_iff}
use webmesh_vdi.Rbac.Equality.{SameRule, deep_equal_iff}
use webmesh_vdi.Rbac.Permits.{Grants, Permits, evaluate_user_iff}
use webmesh_vdi.Rbac.Escalation.{Known, user_includes_rule_sound}
use webmesh_vdi.Rbac.Grantable.{user_includes_rule_own, rule_includes-service_accounts}
use webmesh_vdi.Prelude.Sort.{sort_strings, str_leb}

unfoldable pub rbac_run : Unit {0}
unfolding has_item has_verb has_resource_type has_namespace pattern_matches any_pattern_matches
    matches_resource_name rewrite_default rule_allows evaluate_rule evaluate_rules evaluate_role
    evaluate_roles evaluate_user keep filter_templates filter_user_namespaces
    filter_user_service_accounts
rbac_run = tt

unfoldable pub includes_run : Unit {0}
unfolding same_items str_slice_equal deep_equal has_all_verbs has_all_namespaces covers_names
    covers_getter covers_resource covers_resources rule_includes rules_include_rule
    role_includes_rule roles_include_rule user_includes_rule sort_strings str_leb
includes_run = tt

-- Two kinds of expression: `.*`, and a literal name.
abbrev pub compile : Compile
compile pat = if pat == "(" then none else some (λ name. pat == ".*" || pat == name)

abbrev launcher : Rule
launcher = record {
  verbs = "read" ∷ "launch" ∷ "use" ∷ [];
  resources = "templates" ∷ "serviceaccounts" ∷ [];
  resource_patterns = "(" ∷ "ubuntu" ∷ [];
  namespaces = "default" ∷ [];
}

abbrev shuffled : Rule
shuffled = record {
  verbs = "use" ∷ "launch" ∷ "read" ∷ [];
  resources = "serviceaccounts" ∷ "templates" ∷ [];
  resource_patterns = "ubuntu" ∷ "(" ∷ [];
  namespaces = "default" ∷ [];
}

abbrev pub alice : User
alice = record { name = "alice"; roles = record { name = "launchers"; rules = launcher ∷ [] } ∷ [] }

abbrev pub narrow : Rule
narrow = record {
  verbs = "launch" ∷ [];
  resources = "templates" ∷ [];
  resource_patterns = "ubuntu" ∷ [];
  namespaces = "default" ∷ [];
}

abbrev getter : ResourceGetter
getter = record {
  get_roles = some [];
  get_users = some [];
  get_templates = some ("fedora" ∷ "ubuntu" ∷ []);
}

launch_ubuntu : (evaluate_user compile alice (template_action "ubuntu")).0 ≡ true
unfolding rbac_run
launch_ubuntu = refl

launch_fedora : (evaluate_user compile alice (template_action "fedora")).0 ≡ false
unfolding rbac_run
launch_fedora = refl

kept_templates :
    filter_templates compile alice ("fedora" ∷ "ubuntu" ∷ "windows" ∷ []) ≡ "ubuntu" ∷ []
unfolding rbac_run
kept_templates = refl

kept_accounts :
    filter_user_service_accounts compile alice ("default" ∷ "builder" ∷ []) "default"
    ≡ "default" ∷ []
unfolding rbac_run
kept_accounts = refl

names_shown : resource_name_string (namespace_action "prod") ≡ "prod"
unfolding resource_name_string
names_shown = refl

empty_rule :
    is_empty (record { verbs = []; resources = []; resource_patterns = []; namespaces = [] }) ≡ true
unfolding is_empty
empty_rule = refl

evaluate_user_iff_example :
    ((evaluate_user compile alice (template_action "ubuntu")).0 ≡ true)
    ↔ Any (Grants compile (template_action "ubuntu")) alice.roles
evaluate_user_iff_example = evaluate_user_iff compile alice (template_action "ubuntu")

deep_equal_iff_example : (deep_equal launcher shuffled ≡ true) ↔ SameRule launcher shuffled
deep_equal_iff_example = deep_equal_iff launcher shuffled

filters_iff_example :
    (Has "ubuntu" (filter_templates compile alice ("fedora" ∷ "ubuntu" ∷ [])) ↔ (
      Has "ubuntu" ("fedora" ∷ "ubuntu" ∷ [])
      × Any (Grants compile (template_action "ubuntu")) alice.roles))
    × (Has "ubuntu" (filter_user_namespaces compile alice ("fedora" ∷ "ubuntu" ∷ [])) ↔ (
        Has "ubuntu" ("fedora" ∷ "ubuntu" ∷ [])
        × Any (Grants compile (namespace_action "ubuntu")) alice.roles))
filters_iff_example = filters_iff compile alice "ubuntu" ("fedora" ∷ "ubuntu" ∷ [])

default_account_iff_example :
    Has "default"
      (filter_user_service_accounts compile alice ("default" ∷ "builder" ∷ []) "default")
    ↔ (Has "default" ("default" ∷ "builder" ∷ [])
        × Any
            (λ (role : UserRole).
              Any (Permits compile (use_templates_in compile alice "default")) role.rules)
            alice.roles)
default_account_iff_example =
    default_account_iff compile alice ("default" ∷ "builder" ∷ []) "default"

narrow_included : user_includes_rule compile alice narrow getter ≡ true
unfolding includes_run rbac_run
narrow_included = refl

narrow_allows : (evaluate_rule compile narrow (template_action "ubuntu")).0 ≡ true
unfolding rbac_run
narrow_allows = refl

ubuntu-Known : Known getter (rewrite_default (template_action "ubuntu"))
unfolding rbac_run
ubuntu-Known = inr ("fedora" ∷ "ubuntu" ∷ [], inr (inr (refl, refl)), inr (inl refl))

user_includes_rule_sound_example : (evaluate_user compile alice (template_action "ubuntu")).0 ≡ true
user_includes_rule_sound_example =
    user_includes_rule_sound compile alice narrow getter (template_action "ubuntu") narrow_included
      narrow_allows ubuntu-Known

own_rule : SameRule launcher shuffled
unfolding includes_run
own_rule = (deep_equal_iff launcher shuffled).0 refl

abbrev no_getter : ResourceGetter
no_getter = record { get_roles = none; get_users = none; get_templates = none }

user_includes_rule_own_example : user_includes_rule compile alice shuffled no_getter ≡ true
user_includes_rule_own_example =
    user_includes_rule_own compile alice shuffled no_getter (inl (inl own_rule))

abbrev any_account : Rule
any_account = record {
  verbs = "use" ∷ [];
  resources = "serviceaccounts" ∷ [];
  resource_patterns = ".*" ∷ [];
  namespaces = "default" ∷ [];
}

account_verbs : has_all_verbs launcher any_account.verbs ≡ true
unfolding includes_run rbac_run
account_verbs = refl

account_namespaces : has_all_namespaces launcher any_account.namespaces ≡ true
unfolding includes_run rbac_run
account_namespaces = refl

account_type : has_resource_type launcher "serviceaccounts" ≡ true
unfolding rbac_run
account_type = refl

rule_includes-service_accounts_example : rule_includes compile launcher any_account getter ≡ true
rule_includes-service_accounts_example =
    rule_includes-service_accounts compile launcher any_account getter refl account_verbs
      account_namespaces account_type
