-- ===== src/Api/Permission.antt =====
-- ValidateUserGrants and buildActionFromTemplate of pkg/api/api_validate_perms.go, and auditLog of
-- pkg/api/api_audit.go. The user is the one of the session in the request context.
use webmesh_vdi.Prelude.{
  String, Bool, true, false, Option, none, some, List, [], ◌∷◌, ◌++◌, if◌then◌else◌,
}
use webmesh_vdi.Rbac.Rule.{Compile}
use webmesh_vdi.Rbac.Types.{User, ApiAction}
use webmesh_vdi.Rbac.Evaluate.{evaluate_user}
use webmesh_vdi.Api.Request.{Request}
use webmesh_vdi.Api.Cluster.{DesktopApi}
use webmesh_vdi.Api.Privilege.{
  Check, allow, deny, fail, Override, deny_user_elevate_perms, allow_same_user, allow_session_owner,
  allow_all,
}
use webmesh_vdi.Api.Grants.Types.{
  OverrideFunc, everyone, same_user, session_owner, ExtraCheckFunc, privilege, ResourceValueFunc,
  ActionTemplate, MethodPermissions, find_key,
}
use webmesh_vdi.Api.Grants.Table.{router_grant_requirements}

-- The fields of an AuditResult that the log reads; the request and the user are those of the call.
pub record AuditResult : Type 0 where
  pub allowed : Bool
  pub from_owner : Bool
  pub actions : List ApiAction

pub data Reason : Type 0 where
  no_route no_method override_error extra_error extra_denied : Reason
  missing_grant : ApiAction → Reason

-- `served` calls the next handler.
pub data Response : Type 0 where
  served panicked : Response
  forbidden : Reason → Response

pub record Outcome : Type 0 where
  pub response : Response
  pub audit : List AuditResult

-- A function of the template that is not set leaves the field empty.
unfoldable pub resource_value : Option ResourceValueFunc → Request → Option String
resource_value none r = some ""
resource_value (some f) r = f r

unfoldable pub build_action_from_template : ActionTemplate → Request → Option ApiAction
build_action_from_template tmpl r = elim (resource_value tmpl.resource_name_func r) [
  | none ↦ none
  | some name ↦ elim (resource_value tmpl.resource_namespace_func r) [
    | none ↦ none
    | some namespace ↦ some (record {
      verb = tmpl.verb;
      resource_type = tmpl.resource_type;
      resource_name = name;
      resource_namespace = namespace;
    })
  ]
]

-- Where the loop over the actions ends, with the actions built so far.
pub data ActionsResult : Type 0 where
  all_allowed : List ApiAction → ActionsResult
  denied : ApiAction → List ApiAction → ActionsResult
  action_panic : ActionsResult

unfoldable pub audit_log : DesktopApi → AuditResult → List AuditResult
audit_log d result = if d.audit_log_enabled then result ∷ [] else []

module _ (compile : Compile) (d : DesktopApi) (user : User) (r : Request) where
  unfoldable pub override_of : OverrideFunc → Override
  override_of everyone = allow_all compile d user r
  override_of same_user = allow_same_user compile d user r
  override_of session_owner = allow_session_owner compile d user r

  unfoldable pub extra_check_of : ExtraCheckFunc → Check
  extra_check_of privilege = deny_user_elevate_perms compile d user r

  -- The action is appended as a pointer before it is evaluated, so the log has it as the evaluation
  -- leaves it.
  unfoldable pub check_actions : List ActionTemplate → List ApiAction → ActionsResult
  check_actions [] done = all_allowed done
  check_actions (tmpl ∷ tmpls) done = elim (build_action_from_template tmpl r) [
    | none ↦ action_panic
    | some action ↦
        let (ok, action') = evaluate_user compile user action in
        elim ok [
          | true ↦ check_actions tmpls (done ++ action' ∷ [])
          | false ↦ denied action' (done ++ action' ∷ [])
        ]
  ]

  unfoldable pub finish : Response → Bool → Bool → List ApiAction → Outcome
  finish response allowed from_owner actions = record {
    response = response;
    audit = audit_log d (record { allowed = allowed; from_owner = from_owner; actions = actions });
  }

  unfoldable pub run_extra_check : Option ExtraCheckFunc → List ApiAction → Outcome
  run_extra_check none actions = finish served true false actions
  run_extra_check (some f) actions = elim (extra_check_of f) [
    | fail ↦ finish (forbidden extra_error) false false actions
    | deny ↦ finish (forbidden extra_denied) false false actions
    | allow ↦ finish served true false actions
  ]

  unfoldable pub run_actions : MethodPermissions → Outcome
  run_actions grant = elim (check_actions grant.actions []) [
    | action_panic ↦ record { response = panicked; audit = [] }
    | denied action actions ↦ finish (forbidden (missing_grant action)) false false actions
    | all_allowed actions ↦ run_extra_check grant.extra_check_func actions
  ]

  unfoldable pub run_override : MethodPermissions → OverrideFunc → Outcome
  run_override grant f = elim (override_of f) [
    | none ↦ finish (forbidden override_error) false false []
    | some (allowed, owner) ↦ elim allowed [
      | true ↦ finish served true owner []
      | false ↦ run_actions grant
    ]
  ]

  unfoldable pub run_grant : MethodPermissions → Outcome
  run_grant grant = elim grant.override_func [
    | none ↦ run_actions grant
    | some f ↦ run_override grant f
  ]

  unfoldable pub validate_user_grants : Outcome
  validate_user_grants = elim (find_key r.path router_grant_requirements) [
    | none ↦ record { response = forbidden no_route; audit = [] }
    | some grants ↦ elim (find_key r.method grants) [
      | none ↦ record { response = forbidden no_method; audit = [] }
      | some grant ↦ run_grant grant
    ]
  ]
