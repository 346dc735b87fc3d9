-- ===== src/Api/Privilege.antt =====
-- pkg/api/api_validate_privilege_escalation.go and api_validate_perms_helpers.go.
use webmesh_vdi.Prelude.{
  String, Bool, true, false, not, Option, none, some, List, [], ◌∷◌, if◌then◌else◌,
}
use text.Mathlib.Text.{◌==◌}
use webmesh_vdi.Rbac.Rule.{Rule, Compile}
use webmesh_vdi.Rbac.Types.{UserRole, User}
use webmesh_vdi.Rbac.Includes.{user_includes_rule}
use webmesh_vdi.Api.Request.{
  Request, RequestObject, create_user, update_user, create_role, update_role, create_role_rules,
  update_role_rules, get_user, get_name, get_namespace,
}
use webmesh_vdi.Api.Cluster.{DesktopApi, new_resource_getter, user_desktop_selector}

-- `(allowed, reason, err)`: the reason of a denial is always elevateDenyReason.
pub data Check : Type 0 where
  allow deny fail : Check

unfoldable pub get_role_by_name : List UserRole → String → Option UserRole
get_role_by_name [] name = none
get_role_by_name (role ∷ roles) name =
    if role.name == name then some role else get_role_by_name roles name

-- `(allowed, owner, err)`, with `none` for an error.
abbrev pub Override : Type 0
Override = Option (Bool × Bool)

unfoldable pub find_label : List (String × String) → String → Option String
find_label [] key = none
find_label ((k, v) ∷ labels) key = if k == key then some v else find_label labels key

-- The loop over the selector: a missing or another value denies.
unfoldable pub has_labels : List (String × String) → List (String × String) → Bool
has_labels labels [] = true
has_labels labels ((key, val) ∷ wanted) =
    let rest = has_labels labels wanted in
    elim (find_label labels key) [
      | none ↦ false
      | some expected ↦ if expected == val then rest else false
    ]

module _ (compile : Compile) (d : DesktopApi) (req_user : User) where
  -- The loop over the rules of a role or of a request.
  unfoldable pub includes_rules : List Rule → Bool
  includes_rules [] = true
  includes_rules (rule ∷ rules) =
      if not (user_includes_rule compile req_user rule (new_resource_getter d))
      then false
      else includes_rules rules

  -- The loop over the names of the requested roles: a name without a role is skipped.
  unfoldable pub includes_roles : List UserRole → List String → Bool
  includes_roles vdi_roles [] = true
  includes_roles vdi_roles (role ∷ roles) =
      let rest = includes_roles vdi_roles roles in
      elim (get_role_by_name vdi_roles role) [
        | none ↦ rest
        | some role_obj ↦ if not (includes_rules role_obj.rules) then false else rest
      ]

  unfoldable pub check_roles : List String → Check
  check_roles roles = elim d.roles [
    | none ↦ fail
    | some vdi_roles ↦ if includes_roles vdi_roles roles then allow else deny
  ]

  unfoldable pub check_object : Option RequestObject → Check
  check_object (some (create_user r)) = check_roles r.roles
  check_object (some (update_user r)) = check_roles r.roles
  check_object (some (create_role r)) = if includes_rules (create_role_rules r) then allow else deny
  check_object (some (update_role r)) = if includes_rules (update_role_rules r) then allow else deny
  check_object _ = deny

  unfoldable pub deny_user_elevate_perms : Request → Check
  deny_user_elevate_perms r =
      if r.path == "/api/users/{user}/mfa" then allow else check_object r.object

  -- The owner flag is set on every answer of the check, its error aside.
  unfoldable pub allow_same_user : Request → Override
  allow_same_user r =
      if not (req_user.name == get_user r)
      then some (false, false)
      else elim (deny_user_elevate_perms r) [
        | allow ↦ some (true, true)
        | deny ↦ some (false, true)
        | fail ↦ none
      ]

  unfoldable pub allow_session_owner : Request → Override
  allow_session_owner r = elim (d.session_labels (get_namespace r) (get_name r)) [
    | none ↦ none
    | some none ↦ some (false, false)
    | some (some labels) ↦
        let owner = has_labels labels (user_desktop_selector d req_user.name) in some (owner, owner)
  ]

  unfoldable pub allow_all : Request → Override
  allow_all r = some (true, false)
