-- ===== src/Api/OwnUser.antt =====
-- The routes on which a user's own name is not enough.
use webmesh_vdi.Prelude.{
  String, ◌≡◌, refl, ◌⊎◌, inl, inr, Bool, true, none, some, [], ◌∷◌, arith, Any,
}
use mathlib.Core.Path.{subst}
use webmesh_vdi.Rbac.Rule.{Compile, verb_read, verb_update, resource_users}
use webmesh_vdi.Rbac.Types.{User, ApiAction}
use webmesh_vdi.Rbac.Permits.{Grants}
use webmesh_vdi.Api.Request.{Request, AuthorizeRequest, authorize, get_user}
use webmesh_vdi.Api.Cluster.{DesktopApi}
use webmesh_vdi.Api.Privilege.{check_object, deny_user_elevate_perms, allow_same_user}
use webmesh_vdi.Api.Grants.Types.{same_user, MethodPermissions, find_key, granted, on_named}
use webmesh_vdi.Api.Grants.Table.{router_grant_requirements}
use webmesh_vdi.Api.Permission.{
  served, override_of, validate_user_grants, build_action_from_template, resource_value,
}
use webmesh_vdi.Api.Served.{Granted, served-Granted}

-- The reading of one user, which has no request object, and the verification of a user's MFA, whose
-- object is an AuthorizeRequest.
abbrev pub ReadsUser : Request → Type 0
ReadsUser r = (r.path ≡ "/api/users/{user}") × (r.method ≡ "GET") × (r.object ≡ none)

abbrev pub VerifiesMfa : Request → Type 0
VerifiesMfa r =
    (r.path ≡ "/api/users/{user}/mfa/verify")
    × (r.method ≡ "PUT")
    × ((q : AuthorizeRequest) × (r.object ≡ some (authorize q)))

abbrev pub user_action : String → String → ApiAction
user_action verb name = record {
  verb = verb;
  resource_type = resource_users;
  resource_name = name;
  resource_namespace = "";
}

module _ (compile : Compile) (d : DesktopApi) (user : User) (r : Request) where
  same_user_declines :
      (owner : Bool)
      → ReadsUser r ⊎ VerifiesMfa r
      → allow_same_user compile d user r ≡ some (true, owner)
      → ⊥
  unfolding allow_same_user deny_user_elevate_perms check_object
  same_user_declines owner (inl (p, m, o)) h = let h' = rw (p, o) at h in ground arith
  same_user_declines owner (inr (p, m, (q, o))) h = let h' = rw (p, o) at h in ground arith

  abbrev NamedGrant : String → MethodPermissions
  NamedGrant verb = granted (some same_user) (on_named verb resource_users get_user ∷ []) none

  earned_action :
      (verb : String)
      → ReadsUser r ⊎ VerifiesMfa r
      → Granted compile d user r (NamedGrant verb)
      → Any (Grants compile (user_action verb (get_user r))) user.roles
  unfolding override_of build_action_from_template resource_value
  earned_action verb w (inl (f, owner, set, passed)) =
      let which : f ≡ same_user = cc set in
      absurd (
        same_user_declines owner w
          (subst (λ g. override_of compile d user r g ≡ some (true, owner)) which passed))
  earned_action verb w (inr (declined, (((action, built, p), _), extra))) =
      let which : action ≡ user_action verb (get_user r) = cc built in
      subst (λ a. Any (Grants compile a) user.roles) which p

  -- The verb that the grant of the route asks for.
  abbrev pub own_verb : ReadsUser r ⊎ VerifiesMfa r → String
  own_verb (inl reads) = verb_read
  own_verb (inr verifies) = verb_update

  -- A user who reads their own record, or verifies their own MFA, is served only with a rule that
  -- permits to read, respectively to update, the user of the path: the override for the same user
  -- never applies to these two routes.
  pub own_user_needs_rule :
      (w : ReadsUser r ⊎ VerifiesMfa r)
      → (validate_user_grants compile d user r).response ≡ served
      → Any (Grants compile (user_action (own_verb w) (get_user r))) user.roles
  unfolding find_key router_grant_requirements
  own_user_needs_rule (inl w) h =
      earned_action verb_read (inl w) (served-Granted compile d user r _ _ _ _ w.0 w.1 refl refl h)
  own_user_needs_rule (inr w) h =
      earned_action verb_update (inr w)
        (served-Granted compile d user r _ _ _ _ w.0 w.1 refl refl h)
