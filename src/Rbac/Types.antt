-- ===== src/Rbac/Types.antt =====
-- The user types of pkg/types/auth_types.go that permissions depend on.
use webmesh_vdi.Prelude.{String, ◌&&◌, List, if◌then◌else◌, not}
use Prim.Native.String.{◌++◌}
use text.Mathlib.Text.{◌==◌}
use webmesh_vdi.Rbac.Rule.{Rule}

-- VDIUserRole, and the VDIRole that it condenses.
pub record UserRole : Type 0 where
  pub name : String
  pub rules : List Rule

-- VDIUser, without the MFA status and the sessions that only some responses fill.
pub record User : Type 0 where
  pub name : String
  pub roles : List UserRole

pub record ApiAction : Type 0 where
  pub verb : String
  pub resource_type : String
  pub resource_name : String
  pub resource_namespace : String

unfoldable pub resource_name_string : ApiAction → String
resource_name_string a =
    if not (a.resource_namespace == "") && not (a.resource_name == "")
    then a.resource_namespace ++ "/" ++ a.resource_name
    else if not (a.resource_name == "")
    then a.resource_name
    else if not (a.resource_namespace == "")
    then a.resource_namespace
    else ""
