-- ===== src/Api/Request.antt =====
-- The request objects of pkg/types/api_requests.go, the decoder table of pkg/api/api_decoder.go
-- and the readers of pkg/util/apiutil/requests.go.
use webmesh_vdi.Prelude.{String, Bool, not, Option, none, some, List, [], ◌∷◌, if◌then◌else◌}
use text.Mathlib.Text.{◌==◌}
use webmesh_vdi.Rbac.Rule.{Rule}

-- `none` in the place of roles or rules is the nil slice. Annotations are not read by the checks.
pub record CreateUserRequest : Type 0 where
  pub username : String
  pub password : String
  pub roles : List String

pub record UpdateUserRequest : Type 0 where
  pub password : String
  pub roles : List String

pub record CreateRoleRequest : Type 0 where
  pub name : String
  pub rules : Option (List Rule)

pub record UpdateRoleRequest : Type 0 where
  pub rules : Option (List Rule)

pub record CreateSessionRequest : Type 0 where
  pub template : String
  pub namespace : String
  pub service_account : String

pub record AuthorizeRequest : Type 0 where
  pub otp : String
  pub state : String

pub record UpdateMfaRequest : Type 0 where
  pub enabled : Bool

-- What the request context holds after decoding; a template's contents are not modelled.
pub data RequestObject : Type 0 where
  authorize : AuthorizeRequest → RequestObject
  create_session : CreateSessionRequest → RequestObject
  create_user : CreateUserRequest → RequestObject
  update_user : UpdateUserRequest → RequestObject
  update_mfa : UpdateMfaRequest → RequestObject
  create_role : CreateRoleRequest → RequestObject
  update_role : UpdateRoleRequest → RequestObject
  template : RequestObject
  login : String → String → RequestObject

-- The slice with one rule that denies everything, for a request without rules.
abbrev pub deny_all : List Rule
deny_all = record { verbs = []; resources = []; resource_patterns = []; namespaces = [] } ∷ []

abbrev rules_or_deny_all : Option (List Rule) → List Rule
rules_or_deny_all none = deny_all
rules_or_deny_all (some rules) = rules

unfoldable pub create_role_rules : CreateRoleRequest → List Rule
create_role_rules r = rules_or_deny_all r.rules

unfoldable pub update_role_rules : UpdateRoleRequest → List Rule
update_role_rules r = rules_or_deny_all r.rules

abbrev pub default_namespace : String
default_namespace = "default"

unfoldable pub session_namespace : CreateSessionRequest → String
session_namespace r = if not (r.namespace == "") then r.namespace else default_namespace

-- A request as the router hands it on: the path template of its route, its method, the variables of
-- its path, and the object in its context.
pub record Request : Type 0 where
  pub path : String
  pub method : String
  pub vars : List (String × String)
  pub object : Option RequestObject

lookup_var : String → List (String × String) → String
lookup_var name [] = ""
lookup_var name ((k, v) ∷ vars) = if k == name then v else lookup_var name vars

-- A missing key of the map reads as the empty string.
unfoldable pub get_request_var : Request → String → String
unfolding lookup_var
get_request_var r name = lookup_var name r.vars

unfoldable pub get_name : Request → String
unfolding get_request_var
get_name r = get_request_var r "name"

unfoldable pub get_namespace : Request → String
unfolding get_request_var
get_namespace r = get_request_var r "namespace"

unfoldable pub get_user : Request → String
unfolding get_request_var
get_user r = get_request_var r "user"

unfoldable pub get_role : Request → String
unfolding get_request_var
get_role r = get_request_var r "role"

unfoldable pub get_template : Request → String
unfolding get_request_var
get_template r = get_request_var r "template"
