-- ===== src/Api/Tests.antt =====
-- Runs of the permission and session checks, and each theorem about them at an input.
use webmesh_vdi.Prelude.{
  String, ◌≡◌, ◌≢◌, refl, ◌⊎◌, inl, inr, ◌↔◌, true, false, some, none, Option, [], ◌∷◌, Any,
  if◌then◌else◌,
}
use text.Mathlib.Text.{◌==◌}
use webmesh_vdi.Rbac.Rule.{Rule, verb_read}
use webmesh_vdi.Rbac.Types.{UserRole, User}
use webmesh_vdi.Rbac.Evaluate.{rewrite_default, evaluate_rule, evaluate_user}
use webmesh_vdi.Rbac.Filters.{template_action}
use webmesh_vdi.Rbac.Permits.{Grants}
use webmesh_vdi.Rbac.Escalation.{Known}
use webmesh_vdi.Rbac.Tests.{rbac_run, includes_run, compile, alice, narrow}
use webmesh_vdi.Api.Request.{
  create_session, Request, create_user, create_role, get_user, get_name, get_namespace, get_role,
  get_template, session_namespace, create_role_rules, get_request_var,
}
use webmesh_vdi.Api.Validation.{validate_create_user}
use webmesh_vdi.Api.Validation.{
  Unmarshal, create_session_kind, decode_request, find_decoder, decoders, reflect_and_decode,
  validate_object, validate_create_session,
}
use webmesh_vdi.Api.Cluster.{DesktopApi, new_resource_getter, user_desktop_selector}
use webmesh_vdi.Api.Privilege.{
  get_role_by_name, find_label, has_labels, includes_rules, includes_roles, check_roles,
  check_object, deny_user_elevate_perms, allow_same_user, allow_session_owner, allow_all,
}
use webmesh_vdi.Api.Grants.Types.{MethodPermissions, MethodGrants, find_key}
use webmesh_vdi.Api.Grants.Table.{router_grant_requirements}
use webmesh_vdi.Api.Permission.{
  panicked, served, forbidden, missing_grant, resource_value, build_action_from_template, audit_log,
  override_of, extra_check_of, check_actions, finish, run_extra_check, run_actions, run_override,
  run_grant, validate_user_grants,
}
use webmesh_vdi.Api.Served.{Granted, served_iff}
use webmesh_vdi.Api.Audit.{Audited, validate_user_grants-Audited}
use webmesh_vdi.Api.Elevation.{Gives, no_elevation}
use webmesh_vdi.Api.Session.{
  JwtClaims, next, not_authorized, auth_token, check_claims, verify_token, validate_user_session,
}
use webmesh_vdi.Api.SessionLaws.{session_accepted_iff}
use webmesh_vdi.Api.OwnUser.{user_action, own_user_needs_rule}
use webmesh_vdi.Api.Decoded.{decoded_not_panicked}
use webmesh_vdi.Api.Routes.{protected_routes, Guarded, method_of, protected_route-Guarded}

api_run : Unit {0}
unfolding rbac_run includes_run get_request_var get_user get_name get_namespace get_role
    get_template session_namespace create_role_rules new_resource_getter user_desktop_selector
    get_role_by_name find_label has_labels includes_rules includes_roles check_roles check_object
    deny_user_elevate_perms allow_same_user allow_session_owner allow_all find_key
    router_grant_requirements resource_value build_action_from_template audit_log override_of
    extra_check_of check_actions finish run_extra_check run_actions run_override run_grant
    validate_user_grants
api_run = tt

abbrev everything : Rule
everything = record {
  verbs = "*" ∷ [];
  resources = "*" ∷ [];
  resource_patterns = ".*" ∷ [];
  namespaces = "*" ∷ [];
}

abbrev admin_role : UserRole
admin_role = record { name = "admin"; rules = everything ∷ [] }

abbrev narrow_role : UserRole
narrow_role = record { name = "narrow"; rules = narrow ∷ [] }

abbrev admin : User
admin = record { name = "admin"; roles = admin_role ∷ [] }

abbrev cluster : DesktopApi
cluster = record {
  roles = some (admin_role ∷ narrow_role ∷ []);
  templates = some ("fedora" ∷ "ubuntu" ∷ []);
  session_labels = λ ns n.
      if n == "mine"
      then some (some (("desktopUser", "alice") ∷ ("vdiCluster", "kvdi") ∷ []))
      else some none;
  cluster_name = "kvdi";
  audit_log_enabled = true;
}

abbrev new_user : Request
new_user = record {
  path = "/api/users";
  method = "POST";
  vars = [];
  object = some (create_user (record { username = "bob"; password = "pw"; roles = "narrow" ∷ [] }));
}

abbrev new_admin : Request
new_admin = record {
  path = "/api/roles";
  method = "POST";
  vars = [];
  object = some (create_role (record { name = "all"; rules = some (everything ∷ []) }));
}

abbrev own_session : Request
own_session = record {
  path = "/api/sessions/{namespace}/{name}";
  method = "DELETE";
  vars = ("namespace", "default") ∷ ("name", "mine") ∷ [];
  object = none;
}

abbrev read_self : Request
read_self = record {
  path = "/api/users/{user}";
  method = "GET";
  vars = ("user", "admin") ∷ [];
  object = none;
}

new_user_served : (validate_user_grants compile cluster admin new_user).response ≡ served
unfolding api_run
new_user_served = refl

new_admin_denied :
    (validate_user_grants compile cluster alice new_admin).response
    ≡ forbidden (
        missing_grant (record {
          verb = "create";
          resource_type = "roles";
          resource_name = "";
          resource_namespace = "";
        }))
unfolding api_run
new_admin_denied = refl

owner_served : validate_user_grants compile cluster alice own_session ≡ record {
  response = served;
  audit = record { allowed = true; from_owner = true; actions = [] } ∷ [];
}
unfolding api_run
owner_served = refl

read_self_served : (validate_user_grants compile cluster admin read_self).response ≡ served
unfolding api_run
read_self_served = refl

served_iff_example : ((validate_user_grants compile cluster admin new_user).response ≡ served) ↔ (
    (grants : MethodGrants) × (grant : MethodPermissions) × (find_key "/api/users"
        router_grant_requirements
      ≡ some grants)
    × (find_key "POST" grants ≡ some grant)
    × Granted compile cluster admin new_user grant)
served_iff_example = served_iff compile cluster admin new_user

validate_user_grants-Audited_example :
    Audited new_admin.path new_admin.method (validate_user_grants compile cluster alice new_admin)
validate_user_grants-Audited_example =
    validate_user_grants-Audited compile cluster alice new_admin refl

narrow_given : Gives cluster new_user.object narrow
unfolding api_run
narrow_given = (admin_role ∷ narrow_role ∷ [], refl, inl (narrow_role, refl, inl refl))

narrow_allows : (evaluate_rule compile narrow (template_action "ubuntu")).0 ≡ true
unfolding api_run
narrow_allows = refl

ubuntu-Known : Known (new_resource_getter cluster) (rewrite_default (template_action "ubuntu"))
unfolding api_run
ubuntu-Known = inr ("fedora" ∷ "ubuntu" ∷ [], inr (inr (refl, refl)), inr (inl refl))

no_elevation_example : (evaluate_user compile admin (template_action "ubuntu")).0 ≡ true
no_elevation_example =
    no_elevation compile cluster admin new_user narrow (template_action "ubuntu") (inl (refl, refl))
      new_user_served narrow_given narrow_allows ubuntu-Known

own_user_needs_rule_example :
    Any (Grants compile (user_action verb_read (get_user read_self))) admin.roles
own_user_needs_rule_example =
    own_user_needs_rule compile cluster admin read_self (inl (refl, refl, refl)) read_self_served

protected_route-Guarded_example : Guarded "/api/logout" (method_of (some "POST"))
protected_route-Guarded_example =
    protected_route-Guarded "/api/logout" (some "POST") (unfold protected_routes in inr (inl refl))

-- A token that is its user's name, with MFA still to be verified for bob.
abbrev verify : Unit {0} → String → Option JwtClaims
verify secret token =
    if token == "bob" then some (record { user = alice; authorized = false }) else none

abbrev pending : JwtClaims
pending = record { user = alice; authorized = false }

-- The pending session is refused on a GET, and let through on the POST that makes a user.
pending_get : validate_user_session (some tt) verify read_self "bob" none ≡ not_authorized
unfolding validate_user_session auth_token verify_token check_claims
pending_get = refl

pending_post : validate_user_session (some tt) verify new_user "" (some "bob") ≡ next pending
unfolding validate_user_session auth_token verify_token check_claims
pending_post = refl

session_accepted_iff_example :
    (validate_user_session (some tt) verify new_user "bob" none ≡ next pending) ↔ (
      (auth_token "bob" none ≢ "")
      × ((secret : Unit {0}) × (some tt ≡ some secret)
          × (verify secret (auth_token "bob" none) ≡ some pending))
      × ((pending.authorized ≡ true)
          ⊎ (new_user.path ≡ "/api/authorize")
          ⊎ (new_user.method ≡ "POST")))
session_accepted_iff_example = session_accepted_iff verify (some tt) new_user "bob" none pending

colon_refused :
    validate_create_user (record { username = "a:b"; password = "pw"; roles = "narrow" ∷ [] })
    ≡ false
unfolding validate_create_user
colon_refused = refl

newline_accepted :
    validate_create_user (record { username = "a\nb"; password = "pw"; roles = "narrow" ∷ [] })
    ≡ true
unfolding validate_create_user
newline_accepted = refl

abbrev new_session : Request
new_session = record { path = "/api/sessions"; method = "POST"; vars = []; object = none }

abbrev unmarshal : Unmarshal
unmarshal create_session_kind =
    some (record { template = "ubuntu"; namespace = ""; service_account = "" })
unmarshal _ = none

abbrev asked_session : Request
asked_session = record new_session {
  object =
      some (create_session (record { template = "ubuntu"; namespace = ""; service_account = "" }));
}

session_decoded : decode_request compile unmarshal new_session ≡ some asked_session
unfolding decode_request find_decoder decoders reflect_and_decode validate_object
    validate_create_session
session_decoded = refl

decoded_not_panicked_example :
    (validate_user_grants compile cluster alice asked_session).response ≢ panicked
decoded_not_panicked_example =
    decoded_not_panicked compile unmarshal cluster alice new_session asked_session session_decoded
