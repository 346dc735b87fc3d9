-- ===== src/Api/Cluster.antt =====
-- What the checks read of the cluster: the desktopAPI object with its Kubernetes client, and the
-- getter of pkg/api/resource_getter.go. Roles are VDIRoles condensed as by VDIRoleToUserRole.
use webmesh_vdi.Prelude.{String, Bool, Option, some, List, [], ◌∷◌}
use webmesh_vdi.Rbac.Types.{UserRole}
use webmesh_vdi.Rbac.Includes.{ResourceGetter}

-- The client's answers while one request is checked, `none` for an error: the cluster's roles, the
-- template names, and the labels of a session by namespace and name (the inner `none` is a nil map).
pub record DesktopApi : Type 0 where
  pub roles : Option (List UserRole)
  pub templates : Option (List String)
  pub session_labels : String → String → Option (Option (List (String × String)))
  pub cluster_name : String
  pub audit_log_enabled : Bool

-- GetUsers is left unimplemented in the source and returns no user.
unfoldable pub new_resource_getter : DesktopApi → ResourceGetter
new_resource_getter d = record {
  get_roles = d.roles;
  get_users = some [];
  get_templates = d.templates;
}

-- GetUserDesktopSelector of apis/app/v1/vdicluster_desktop_util.go.
unfoldable pub user_desktop_selector : DesktopApi → String → List (String × String)
user_desktop_selector d username = ("desktopUser", username) ∷ ("vdiCluster", d.cluster_name) ∷ []
