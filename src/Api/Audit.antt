-- ===== src/Api/Audit.antt =====
-- What ValidateUserGrants writes to the audit log.
use webmesh_vdi.Prelude.{
  ◌≡◌, refl, ◌⊎◌, inl, inr, Bool, true, false, Option, none, some, List, [], ◌∷◌, Option-cases,
  String,
}
use webmesh_vdi.Rbac.Rule.{Compile}
use webmesh_vdi.Rbac.Types.{User, ApiAction}
use webmesh_vdi.Api.Request.{Request}
use webmesh_vdi.Api.Cluster.{DesktopApi}
use webmesh_vdi.Api.Privilege.{allow, deny, fail, Override}
use webmesh_vdi.Api.Grants.Types.{
  OverrideFunc, ExtraCheckFunc, MethodPermissions, MethodGrants, find_key,
}
use webmesh_vdi.Api.Grants.Table.{router_grant_requirements}
use webmesh_vdi.Api.Permission.{
  AuditResult, Response, served, forbidden, panicked, no_route, no_method, override_error,
  extra_error, extra_denied, missing_grant, Outcome, audit_log, all_allowed, denied, action_panic,
  override_of, extra_check_of, check_actions, finish, run_extra_check, run_actions, run_override,
  run_grant, validate_user_grants,
}

abbrev pub is_served : Response → Bool
is_served served = true
is_served _ = false

-- The answers to a request that has no grant.
abbrev pub is_unrouted : Response → Bool
is_unrouted (forbidden no_route) = true
is_unrouted (forbidden no_method) = true
is_unrouted _ = false

abbrev pub is_panicked : Response → Bool
is_panicked panicked = true
is_panicked _ = false

-- A panic leaves no entry. Any other answer to a request with a grant has one entry.
abbrev pub Logged : Outcome → Type 0
Logged o =
    ((o.response ≡ panicked) × (o.audit ≡ []))
    ⊎ ((is_panicked o.response ≡ false)
        × (is_unrouted o.response ≡ false)
        × (entry : AuditResult) × (o.audit ≡ entry ∷ [])
        × (entry.allowed ≡ is_served o.response))

-- The answer and the log of a request with some path and method, by the table of the grants.
abbrev pub Audited : String → String → Outcome → Type 0
Audited path method o =
    ((find_key path router_grant_requirements ≡ none)
      × (o.response ≡ forbidden no_route)
      × (o.audit ≡ []))
    ⊎ ((grants : MethodGrants) × (find_key path router_grant_requirements ≡ some grants)
        × (((find_key method grants ≡ none) × (o.response ≡ forbidden no_method) × (o.audit ≡ []))
            ⊎ ((grant : MethodPermissions) × (find_key method grants ≡ some grant) × Logged o)))

module _ (compile : Compile) (d : DesktopApi) (user : User) (r : Request)
    (enabled : d.audit_log_enabled ≡ true) where
  finish-Logged :
      (res : Response) (owner : Bool) (actions : List ApiAction)
      → is_panicked res ≡ false
      → is_unrouted res ≡ false
      → Logged (finish compile d user r res (is_served res) owner actions)
  unfolding finish audit_log
  finish-Logged res owner actions p q = rw enabled (inr (p, q, _, refl, refl))

  run_extra_check-Logged :
      (extra : Option ExtraCheckFunc) (actions : List ApiAction)
      → Logged (run_extra_check compile d user r extra actions)
  unfolding run_extra_check
  run_extra_check-Logged none actions = finish-Logged served false actions refl refl
  run_extra_check-Logged (some f) actions =
      elim (extra_check_of compile d user r f)
        as (λ c. Logged (elim c [
          | fail ↦ finish compile d user r (forbidden extra_error) false false actions
          | deny ↦ finish compile d user r (forbidden extra_denied) false false actions
          | allow ↦ finish compile d user r served true false actions
        ])) [
          | allow ↦ finish-Logged served false actions refl refl
          | deny ↦ finish-Logged (forbidden extra_denied) false actions refl refl
          | fail ↦ finish-Logged (forbidden extra_error) false actions refl refl
        ]

  run_actions-Logged : (grant : MethodPermissions) → Logged (run_actions compile d user r grant)
  unfolding run_actions
  run_actions-Logged grant =
      elim (check_actions compile d user r grant.actions [])
        as (λ c. Logged (elim c [
          | action_panic ↦ record { response = panicked; audit = [] }
          | denied action actions ↦
              finish compile d user r (forbidden (missing_grant action)) false false actions
          | all_allowed actions ↦ run_extra_check compile d user r grant.extra_check_func actions
        ])) [
          | all_allowed actions ↦ run_extra_check-Logged grant.extra_check_func actions
          | denied action actions ↦
              finish-Logged (forbidden (missing_grant action)) false actions refl refl
          | action_panic ↦ inl (refl, refl)
        ]

  run_override-Logged :
      (grant : MethodPermissions) (f : OverrideFunc)
      → Logged (run_override compile d user r grant f)
  unfolding run_override
  run_override-Logged grant f = go (override_of compile d user r f) refl
    where
      go :
          (o : Override)
          → override_of compile d user r f ≡ o
          → Logged (run_override compile d user r grant f)
      go none e = rw (e, run_override) (finish-Logged (forbidden override_error) false [] refl refl)
      go (some (true, owner)) e = rw (e, run_override) (finish-Logged served owner [] refl refl)
      go (some (false, owner)) e = rw (e, run_override) (run_actions-Logged grant)

  run_grant-Logged : (grant : MethodPermissions) → Logged (run_grant compile d user r grant)
  unfolding run_grant
  run_grant-Logged grant = go grant.override_func refl
    where
      go :
          (o : Option OverrideFunc)
          → grant.override_func ≡ o
          → Logged (run_grant compile d user r grant)
      go none e = rw (e, run_grant) (run_actions-Logged grant)
      go (some f) e = rw (e, run_grant) (run_override-Logged grant f)

  no_entry :
      (grants : MethodGrants)
      → find_key r.path router_grant_requirements ≡ some grants
      → find_key r.method grants ≡ none
      → ((validate_user_grants compile d user r).response ≡ forbidden no_method)
        × ((validate_user_grants compile d user r).audit ≡ [])
  unfolding validate_user_grants
  no_entry grants e f = rw (e, validate_user_grants) (rw f (refl, refl))

  -- With the audit log enabled: a request whose path has no grants, or whose method has none under
  -- them, is refused for that reason and has no entry in the log. Any other request either panics,
  -- with no entry, or is not refused for those reasons and has exactly one entry, which says allowed
  -- if and only if the next handler was called.
  pub validate_user_grants-Audited : Audited r.path r.method (validate_user_grants compile d user r)
  unfolding validate_user_grants
  validate_user_grants-Audited = elim (Option-cases (find_key r.path router_grant_requirements)) [
    | inl e ↦ rw (e, validate_user_grants) (inl (refl, refl, refl))
    | inr (grants, e) ↦ inr (
      grants,
      e,
      elim (Option-cases (find_key r.method grants)) [
        | inl f ↦ let (answer, log) = no_entry grants e f in inl (f, answer, log)
        | inr (grant, f) ↦
            inr (grant, f, rw (e, validate_user_grants) (rw f (run_grant-Logged grant)))
      ],
    )
  ]
