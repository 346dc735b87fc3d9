-- ===== src/Api/Served.antt =====
-- When ValidateUserGrants lets a request through, stated without its control flow.
use webmesh_vdi.Prelude.{
  String, ◌≡◌, refl, ◌⊎◌, inl, inr, ◌↔◌, Bool, true, false, Option, none, some, List, [], ◌∷◌, ◌++◌,
  arith, All, Any, Bool-cases, Option-cases,
}
use mathlib.Core.Path.{subst}
use webmesh_vdi.Rbac.Rule.{Compile}
use webmesh_vdi.Rbac.Types.{User, ApiAction}
use webmesh_vdi.Rbac.Evaluate.{evaluate_user}
use webmesh_vdi.Rbac.Permits.{Grants, evaluate_user_iff}
use webmesh_vdi.Api.Request.{Request}
use webmesh_vdi.Api.Cluster.{DesktopApi}
use webmesh_vdi.Api.Privilege.{allow, Override, deny_user_elevate_perms}
use webmesh_vdi.Api.Grants.Types.{
  ActionTemplate, OverrideFunc, privilege, ExtraCheckFunc, MethodPermissions, MethodGrants,
  find_key,
}
use webmesh_vdi.Api.Grants.Table.{router_grant_requirements}
use webmesh_vdi.Api.Permission.{
  served, ActionsResult, all_allowed, denied, action_panic, build_action_from_template, override_of,
  extra_check_of, check_actions, finish, run_extra_check, run_actions, run_override, run_grant,
  validate_user_grants,
}

module _ (compile : Compile) (d : DesktopApi) (user : User) (r : Request) where
  -- The action of the template can be built, and some rule of the user permits it.
  abbrev pub ActionPermitted : ActionTemplate → Type 0
  ActionPermitted tmpl =
      (action : ApiAction) × (build_action_from_template tmpl r ≡ some action)
      × Any (Grants compile action) user.roles

  abbrev pub ExtraPassed : Option ExtraCheckFunc → Type 0
  ExtraPassed extra = (extra ≡ none) ⊎ (deny_user_elevate_perms compile d user r ≡ allow)

  abbrev pub OverridePassed : Option OverrideFunc → Type 0
  OverridePassed override =
      (f : OverrideFunc) × (owner : Bool) × (override ≡ some f)
      × (override_of compile d user r f ≡ some (true, owner))

  -- There is no override, or it says neither yes nor fails.
  abbrev pub OverrideDeclined : Option OverrideFunc → Type 0
  OverrideDeclined override =
      (override ≡ none)
      ⊎ ((f : OverrideFunc) × (owner : Bool) × (override ≡ some f)
          × (override_of compile d user r f ≡ some (false, owner)))

  -- What the actions and the extra check establish.
  abbrev pub Earned : MethodPermissions → Type 0
  Earned grant = All ActionPermitted grant.actions × ExtraPassed grant.extra_check_func

  abbrev pub Granted : MethodPermissions → Type 0
  Granted grant =
      OverridePassed grant.override_func ⊎ (OverrideDeclined grant.override_func × Earned grant)

  AllAllowed : ActionsResult → Type 0
  AllAllowed res = (actions : List ApiAction) × (res ≡ all_allowed actions)

  check_actions_sound :
      (tmpls : List ActionTemplate) (done actions : List ApiAction)
      → check_actions compile d user r tmpls done ≡ all_allowed actions
      → All ActionPermitted tmpls
  unfolding check_actions
  check_actions_sound [] done actions h = tt
  check_actions_sound (tmpl ∷ tmpls) done actions h =
      elim (Option-cases (build_action_from_template tmpl r)) [
        | inl e ↦ cc (rw (e, check_actions) at h)
        | inr (action, e) ↦
            let h' = rw (e, check_actions) at h in
            elim (Bool-cases (evaluate_user compile user action).0) [
              | inl t ↦ (
                (action, e, (evaluate_user_iff compile user action).0 t),
                check_actions_sound tmpls (done ++ (evaluate_user compile user action).1 ∷ [])
                    actions (rw t at h'),
              )
              | inr t ↦ cc (rw t at h')
            ]
      ]

  check_actions_complete :
      (tmpls : List ActionTemplate) (done : List ApiAction)
      → All ActionPermitted tmpls
      → (actions : List ApiAction) × (check_actions compile d user r tmpls done
          ≡ all_allowed actions)
  unfolding check_actions
  check_actions_complete [] done h = (done, refl)
  check_actions_complete (tmpl ∷ tmpls) done ((action, e, p), h) =
      rw (e, check_actions)
        (rw ((evaluate_user_iff compile user action).1 p)
          (check_actions_complete tmpls (done ++ (evaluate_user compile user action).1 ∷ []) h))

  run_extra_check_iff :
      (extra : Option ExtraCheckFunc) (actions : List ApiAction)
      → ((run_extra_check compile d user r extra actions).response ≡ served) ↔ ExtraPassed extra
  unfolding run_extra_check extra_check_of finish
  run_extra_check_iff none actions = ground arith
  run_extra_check_iff (some privilege) actions = ground arith

  run_actions_iff :
      (grant : MethodPermissions)
      → ((run_actions compile d user r grant).response ≡ served) ↔ Earned grant
  unfolding run_actions finish
  run_actions_iff grant = (forth (check_actions compile d user r grant.actions []) refl, back)
    where
      forth :
          (res : ActionsResult)
          → check_actions compile d user r grant.actions [] ≡ res
          → (run_actions compile d user r grant).response ≡ served
          → Earned grant
      forth (all_allowed actions) e h = (
        check_actions_sound grant.actions [] actions e,
        (run_extra_check_iff grant.extra_check_func actions).0 (rw (e, run_actions) at h),
      )
      forth (denied a done) e h = cc (rw (e, run_actions) at h)
      forth action_panic e h = cc (rw (e, run_actions) at h)

      back : Earned grant → (run_actions compile d user r grant).response ≡ served
      back (h, extra) =
          let (actions, e) = check_actions_complete grant.actions [] h in
          rw (e, run_actions) ((run_extra_check_iff grant.extra_check_func actions).1 extra)

  module _ (grant : MethodPermissions) where
    run_override_sound :
        (f : OverrideFunc) (o : Override)
        → override_of compile d user r f ≡ o
        → (run_override compile d user r grant f).response ≡ served
        → ((owner : Bool) × (o ≡ some (true, owner)))
          ⊎ (((owner : Bool) × (o ≡ some (false, owner))) × Earned grant)
    unfolding run_override finish
    run_override_sound f none e h = cc (rw (e, run_override) at h)
    run_override_sound f (some (true, owner)) e h = inl (owner, refl)
    run_override_sound f (some (false, owner)) e h =
        inr ((owner, refl), (run_actions_iff grant).0 (rw (e, run_override) at h))

    run_grant_sound :
        (override : Option OverrideFunc)
        → grant.override_func ≡ override
        → (run_grant compile d user r grant).response ≡ served
        → Granted grant
    unfolding run_grant
    run_grant_sound none e h = inr (inl e, (run_actions_iff grant).0 (rw (e, run_grant) at h))
    run_grant_sound (some f) e h =
        elim (run_override_sound f (override_of compile d user r f) refl (rw (e, run_grant) at h)) [
          | inl (owner, o) ↦ inl (f, owner, e, o)
          | inr ((owner, o), earned) ↦ inr (inr (f, owner, e, o), earned)
        ]

    run_grant_complete : Granted grant → (run_grant compile d user r grant).response ≡ served
    unfolding run_grant run_override finish
    run_grant_complete (inl (f, owner, e, o)) = rw (e, run_grant) (rw (o, run_override))
    run_grant_complete (inr (inl e, earned)) = rw (e, run_grant) ((run_actions_iff grant).1 earned)
    run_grant_complete (inr (inr (f, owner, e, o), earned)) =
        rw (e, run_grant) (rw (o, run_override) ((run_actions_iff grant).1 earned))

  Routed : Type 0
  Routed =
      (grants : MethodGrants) × (grant : MethodPermissions) × (find_key r.path
          router_grant_requirements
        ≡ some grants)
      × (find_key r.method grants ≡ some grant)
      × Granted grant

  served_sound :
      (table : Option MethodGrants)
      → find_key r.path router_grant_requirements ≡ table
      → (validate_user_grants compile d user r).response ≡ served
      → Routed
  unfolding validate_user_grants Routed
  served_sound none e h = cc (rw (e, validate_user_grants) at h)
  served_sound (some grants) e h = go (find_key r.method grants) refl
    where
      go : (found : Option MethodPermissions) → find_key r.method grants ≡ found → Routed
      go none f = cc (rw f at (rw (e, validate_user_grants) at h))
      go (some grant) f = (
        grants,
        grant,
        e,
        f,
        run_grant_sound grant grant.override_func refl
            (rw f at (rw (e, validate_user_grants) at h)),
      )

  -- The next handler is called exactly when the route and the method have a grant, and either the
  -- override of the grant allows the request, or there is none or it declines, every action of the
  -- grant can be built and is permitted by a rule of the user, and the extra check, where there is
  -- one, allows the request.
  pub served_iff : ((validate_user_grants compile d user r).response ≡ served) ↔ (
      (grants : MethodGrants) × (grant : MethodPermissions) × (find_key r.path
          router_grant_requirements
        ≡ some grants)
      × (find_key r.method grants ≡ some grant)
      × Granted grant)
  unfolding validate_user_grants
  served_iff = (
    λ h. unfold Routed in served_sound (find_key r.path router_grant_requirements) refl h,
    λ (grants, grant, e, f, g). rw (e, validate_user_grants) (rw f (run_grant_complete grant g)),
  )

  -- A served request on a route whose grant is at hand.
  pub served-Granted :
      (path method : String) (grants : MethodGrants) (grant : MethodPermissions)
      → r.path ≡ path
      → r.method ≡ method
      → find_key path router_grant_requirements ≡ some grants
      → find_key method grants ≡ some grant
      → (validate_user_grants compile d user r).response ≡ served
      → Granted grant
  served-Granted path method grants grant p m at_path at_method h =
      let (grants', grant', e, f, g) = served_iff.0 h in
      let same_grants : grants' ≡ grants = cc (e, at_path, p) in
      let same_grant : grant' ≡ grant = cc (f, at_method, m, same_grants) in
      subst Granted same_grant g
