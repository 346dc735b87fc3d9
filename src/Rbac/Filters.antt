-- ===== src/Rbac/Filters.antt =====
-- pkg/util/rbac/filters.go. Templates are taken by their names.
use webmesh_vdi.Prelude.{String, Bool, List, [], ◌∷◌, if◌then◌else◌}
use webmesh_vdi.Rbac.Rule.{
  Compile, verb_launch, verb_use, resource_templates, resource_service_accounts,
}
use webmesh_vdi.Rbac.Types.{User, ApiAction}
use webmesh_vdi.Rbac.Evaluate.{evaluate_user}

abbrev pub template_action : String → ApiAction
template_action tmpl = record {
  verb = verb_launch;
  resource_type = resource_templates;
  resource_name = tmpl;
  resource_namespace = "";
}

abbrev pub namespace_action : String → ApiAction
namespace_action ns = record {
  verb = verb_launch;
  resource_type = resource_templates;
  resource_name = "";
  resource_namespace = ns;
}

abbrev pub service_account_action : String → String → ApiAction
service_account_action sa ns = record {
  verb = verb_use;
  resource_type = resource_service_accounts;
  resource_name = sa;
  resource_namespace = ns;
}

-- The loop of the three filters: the elements that pass the test, in order.
unfoldable pub keep : (String → Bool) → List String → List String
keep test [] = []
keep test (x ∷ xs) = let rest = keep test xs in if test x then x ∷ rest else rest

module _ (compile : Compile) (u : User) where
  unfoldable pub filter_templates : List String → List String
  filter_templates tmpls = keep (λ tmpl. (evaluate_user compile u (template_action tmpl)).0) tmpls

  unfoldable pub filter_user_namespaces : List String → List String
  filter_user_namespaces nss = keep (λ ns. (evaluate_user compile u (namespace_action ns)).0) nss

  unfoldable pub filter_user_service_accounts : List String → String → List String
  filter_user_service_accounts sas ns =
      keep (λ sa. (evaluate_user compile u (service_account_action sa ns)).0) sas
