-- ===== src/Api/Grants/Table.antt =====
-- The table RouterGrantRequirements of pkg/api/api_validate_perms.go, in the order of the source.
use webmesh_vdi.Prelude.{none, some, [], ◌∷◌, ◌++◌}
use webmesh_vdi.Rbac.Rule.{
  verb_create, verb_read, verb_update, verb_delete, verb_use, verb_launch, resource_users,
  resource_roles, resource_templates, resource_service_accounts,
}
use webmesh_vdi.Api.Request.{get_user, get_role, get_template}
use webmesh_vdi.Api.Grants.Types.{
  RouteGrants, everyone, same_user, session_owner, privilege, granted, on_all, on_named, on_session,
  on_request, session_request_template, session_request_namespace, session_request_service_account,
}

unfoldable pub misc_grants : RouteGrants
misc_grants =
    ("/api/whoami", ("GET", granted (some everyone) ([]) none) ∷ [])
    ∷ ("/api/authorize", ("POST", granted (some everyone) ([]) none) ∷ [])
    ∷ ("/api/logout", ("POST", granted (some everyone) ([]) none) ∷ [])
    ∷ ("/api/config", ("GET", granted (some everyone) ([]) none) ∷ [])
    ∷ ("/api/config/reload", ("POST", granted (some everyone) ([]) none) ∷ [])
    ∷ ("/api/namespaces", ("GET", granted (some everyone) ([]) none) ∷ [])
    ∷ ("/api/serviceaccounts/{namespace}", ("GET", granted (some everyone) ([]) none) ∷ [])
    ∷ []

unfoldable pub user_grants : RouteGrants
user_grants =
    (
      "/api/users",
      ("GET", granted none (on_all verb_read resource_users ∷ []) none)
          ∷ ("POST", granted none (on_all verb_create resource_users ∷ []) (some privilege))
          ∷ [],
    )
    ∷ (
      "/api/users/{user}",
      ("GET", granted (some same_user) (on_named verb_read resource_users get_user ∷ []) none)
          ∷ (
            "PUT",
            granted (some same_user) (on_named verb_update resource_users get_user ∷ [])
                (some privilege),
          )
          ∷ ("DELETE", granted none (on_named verb_delete resource_users get_user ∷ []) none)
          ∷ [],
    )
    ∷ (
      "/api/users/{user}/mfa",
      ("GET", granted (some same_user) (on_named verb_read resource_users get_user ∷ []) none)
          ∷ (
            "PUT",
            granted (some same_user) (on_named verb_update resource_users get_user ∷ []) none,
          )
          ∷ [],
    )
    ∷ (
      "/api/users/{user}/mfa/verify",
      ("PUT", granted (some same_user) (on_named verb_update resource_users get_user ∷ []) none)
          ∷ [],
    )
    ∷ []

unfoldable pub role_grants : RouteGrants
role_grants =
    (
      "/api/roles",
      ("GET", granted none (on_all verb_read resource_roles ∷ []) none)
          ∷ ("POST", granted none (on_all verb_create resource_roles ∷ []) (some privilege))
          ∷ [],
    )
    ∷ (
      "/api/roles/{role}",
      ("GET", granted none (on_named verb_read resource_roles get_role ∷ []) none)
          ∷ (
            "PUT",
            granted none (on_named verb_update resource_roles get_role ∷ []) (some privilege),
          )
          ∷ ("DELETE", granted none (on_named verb_delete resource_roles get_role ∷ []) none)
          ∷ [],
    )
    ∷ []

unfoldable pub template_grants : RouteGrants
template_grants =
    (
      "/api/templates",
      ("GET", granted none (on_all verb_read resource_templates ∷ []) none)
          ∷ ("POST", granted none (on_all verb_create resource_templates ∷ []) none)
          ∷ [],
    )
    ∷ (
      "/api/templates/{template}",
      ("GET", granted none (on_named verb_read resource_templates get_template ∷ []) none)
          ∷ ("PUT", granted none (on_named verb_update resource_templates get_template ∷ []) none)
          ∷ (
            "DELETE",
            granted none (on_named verb_delete resource_templates get_template ∷ []) none,
          )
          ∷ [],
    )
    ∷ []

unfoldable pub session_grants : RouteGrants
session_grants =
    (
      "/api/sessions",
      (
        "GET",
        granted none (on_all verb_read resource_templates ∷ on_all verb_read resource_users ∷ [])
            none,
      )
          ∷ (
            "POST",
            granted none
                (on_request verb_launch resource_templates session_request_template
                    session_request_namespace
                  ∷ on_request verb_use resource_service_accounts session_request_service_account
                      session_request_namespace
                  ∷ [])
                none,
          )
          ∷ [],
    )
    ∷ (
      "/api/sessions/{namespace}/{name}",
      ("GET", granted (some session_owner) (on_session verb_read ∷ []) none)
          ∷ ("DELETE", granted (some session_owner) (on_session verb_delete ∷ []) none)
          ∷ [],
    )
    ∷ []

unfoldable pub desktop_grants : RouteGrants
desktop_grants =
    (
      "/api/desktops/{namespace}/{name}/logs/{container}",
      ("GET", granted (some session_owner) (on_session verb_use ∷ []) none) ∷ [],
    )
    ∷ (
      "/api/desktops/ws/{namespace}/{name}/logs/{container}",
      ("GET", granted (some session_owner) (on_session verb_use ∷ []) none) ∷ [],
    )
    ∷ (
      "/api/desktops/ws/{namespace}/{name}/display",
      ("GET", granted (some session_owner) (on_session verb_use ∷ []) none) ∷ [],
    )
    ∷ (
      "/api/desktops/ws/{namespace}/{name}/audio",
      ("GET", granted (some session_owner) (on_session verb_use ∷ []) none) ∷ [],
    )
    ∷ (
      "/api/desktops/ws/{namespace}/{name}/status",
      ("GET", granted (some session_owner) (on_session verb_read ∷ []) none) ∷ [],
    )
    ∷ (
      "/api/desktops/fs/{namespace}/{name}/stat/",
      ("GET", granted (some session_owner) (on_session verb_use ∷ []) none) ∷ [],
    )
    ∷ (
      "/api/desktops/fs/{namespace}/{name}/get/",
      ("GET", granted (some session_owner) (on_session verb_use ∷ []) none) ∷ [],
    )
    ∷ (
      "/api/desktops/fs/{namespace}/{name}/put",
      ("PUT", granted (some session_owner) (on_session verb_use ∷ []) none) ∷ [],
    )
    ∷ []

unfoldable pub router_grant_requirements : RouteGrants
unfolding misc_grants user_grants role_grants template_grants session_grants desktop_grants
router_grant_requirements =
    misc_grants ++ user_grants ++ role_grants ++ template_grants ++ session_grants ++ desktop_grants
