-- ===== src/Api/Grants/Types.antt =====
-- The types of the table RouterGrantRequirements of pkg/api/api_validate_perms.go.
use webmesh_vdi.Prelude.{String, Option, none, some, List, [], ◌∷◌, if◌then◌else◌}
use text.Mathlib.Text.{◌==◌}
use webmesh_vdi.Rbac.Rule.{resource_templates}
use webmesh_vdi.Api.Request.{
  Request, RequestObject, create_session, CreateSessionRequest, session_namespace, get_name,
  get_namespace,
}

-- The functions that the table uses as OverrideFunc, and the one that it uses as ExtraCheckFunc.
pub data OverrideFunc : Type 0 where
  everyone same_user session_owner : OverrideFunc

pub data ExtraCheckFunc : Type 0 where
  privilege : ExtraCheckFunc

-- `none` is a panic: the request object is not of the type that the function asserts.
abbrev pub ResourceValueFunc : Type 0
ResourceValueFunc = Request → Option String

pub record ActionTemplate : Type 0 where
  pub verb : String
  pub resource_type : String
  pub resource_name_func : Option ResourceValueFunc
  pub resource_namespace_func : Option ResourceValueFunc

pub record MethodPermissions : Type 0 where
  pub override_func : Option OverrideFunc
  pub actions : List ActionTemplate
  pub extra_check_func : Option ExtraCheckFunc

abbrev pub MethodGrants : Type 0
MethodGrants = List (String × MethodPermissions)

abbrev pub RouteGrants : Type 0
RouteGrants = List (String × MethodGrants)

-- A function of apiutil that reads a variable of the path.
abbrev pub path_value : (Request → String) → ResourceValueFunc
path_value f r = some (f r)

-- The functions of POST /api/sessions assert a CreateSessionRequest.
abbrev of_session : (CreateSessionRequest → String) → Option RequestObject → Option String
of_session f (some (create_session s)) = some (f s)
of_session f _ = none

abbrev pub session_request_template : ResourceValueFunc
session_request_template r = of_session (λ s. s.template) r.object

abbrev pub session_request_namespace : ResourceValueFunc
session_request_namespace r = of_session session_namespace r.object

abbrev pub session_request_service_account : ResourceValueFunc
session_request_service_account r = of_session (λ s. s.service_account) r.object

-- The four shapes of action that the table has.
abbrev pub on_all : String → String → ActionTemplate
on_all verb type = record {
  verb = verb;
  resource_type = type;
  resource_name_func = none;
  resource_namespace_func = none;
}

abbrev pub on_named : String → String → (Request → String) → ActionTemplate
on_named verb type name = record {
  verb = verb;
  resource_type = type;
  resource_name_func = some (path_value name);
  resource_namespace_func = none;
}

abbrev pub on_session : String → ActionTemplate
on_session verb = record {
  verb = verb;
  resource_type = resource_templates;
  resource_name_func = some (path_value get_name);
  resource_namespace_func = some (path_value get_namespace);
}

abbrev pub on_request : String → String → ResourceValueFunc → ResourceValueFunc → ActionTemplate
on_request verb type name namespace = record {
  verb = verb;
  resource_type = type;
  resource_name_func = some name;
  resource_namespace_func = some namespace;
}

abbrev pub granted :
    Option OverrideFunc → List ActionTemplate → Option ExtraCheckFunc → MethodPermissions
granted override actions extra = record {
  override_func = override;
  actions = actions;
  extra_check_func = extra;
}

-- A lookup in a map with text keys.
unfoldable pub find_key {ℓ} : {V : Type ℓ} → String → List (String × V) → Option V
find_key key [] = none
find_key key ((k, v) ∷ entries) = if k == key then some v else find_key key entries
