-- ===== src/Api/Built.antt =====
-- Which actions of the table can be built, and where the checks may panic.
use webmesh_vdi.Prelude.{
  String, ◌≡◌, ◌≢◌, refl, sym, ◌∙◌, ap, ◌⊎◌, inl, inr, Bool, true, false, ◌&&◌, ◌||◌, Option, none,
  some, List, [], ◌∷◌, ◌++◌, arith, eq_iff, Bool-cases, Option-cases,
}
use mathlib.Core.Path.{subst}
use text.Mathlib.Text.{◌==◌}
use webmesh_vdi.Rbac.Rule.{Compile}
use webmesh_vdi.Rbac.Types.{User, ApiAction}
use webmesh_vdi.Rbac.Evaluate.{evaluate_user}
use webmesh_vdi.Api.Request.{Request, create_session, CreateSessionRequest}
use webmesh_vdi.Api.Cluster.{DesktopApi}
use webmesh_vdi.Api.Privilege.{Check, allow, deny, fail, Override}
use webmesh_vdi.Api.Grants.Types.{
  OverrideFunc, ExtraCheckFunc, ActionTemplate, MethodPermissions, MethodGrants, RouteGrants,
  find_key,
}
use webmesh_vdi.Api.Grants.Table.{router_grant_requirements}
use webmesh_vdi.Api.Permission.{
  Response, panicked, resource_value, build_action_from_template, ActionsResult, all_allowed,
  denied, action_panic, override_of, extra_check_of, check_actions, finish, run_extra_check,
  run_actions, run_override, run_grant, validate_user_grants,
}

unfoldable pub built : Option ApiAction → Bool
built none = false
built (some a) = true

unfoldable pub all_built : Request → List ActionTemplate → Bool
all_built r [] = true
all_built r (tmpl ∷ tmpls) = built (build_action_from_template tmpl r) && all_built r tmpls

-- The one route whose actions read the request object.
unfoldable pub starts_session : String → String → Bool
starts_session path method = path == "/api/sessions" && method == "POST"

-- The actions of every grant, save those of the exempted routes and methods, can be built.
unfoldable pub grants_built : (String → String → Bool) → Request → String → MethodGrants → Bool
grants_built exempt r path [] = true
grants_built exempt r path ((method, grant) ∷ grants) =
    (exempt path method || all_built r grant.actions) && grants_built exempt r path grants

unfoldable pub table_built : (String → String → Bool) → Request → RouteGrants → Bool
table_built exempt r [] = true
table_built exempt r ((path, grants) ∷ table) =
    grants_built exempt r path grants && table_built exempt r table

-- With a session request as its object, no route is exempted.
pub session_checked :
    (r : Request) (q : CreateSessionRequest)
    → table_built
        (λ path method. false)
        (record r { object = some (create_session q) })
        router_grant_requirements
      ≡ true
unfolding table_built grants_built all_built built build_action_from_template resource_value
    router_grant_requirements
session_checked r q = refl

pub table_checked : (r : Request) → table_built starts_session r router_grant_requirements ≡ true
unfolding table_built grants_built starts_session all_built built build_action_from_template
    resource_value router_grant_requirements
table_checked r = refl

grants_built-found :
    (exempt : String → String → Bool) (r : Request) (path method : String) (grants : MethodGrants)
    (grant : MethodPermissions)
    → grants_built exempt r path grants ≡ true
    → find_key method grants ≡ some grant
    → (exempt path method ≡ true) ⊎ (all_built r grant.actions ≡ true)
unfolding grants_built find_key
grants_built-found exempt r path method [] grant h e = cc e
grants_built-found exempt r path method ((m, g) ∷ grants) grant h e =
    elim (Bool-cases (m == method)) [
      | inl s ↦
          let same : m ≡ method = (eq_iff m method).0 s in
          let which : g ≡ grant = cc (rw s at e) in
          let first : (exempt path m || all_built r g.actions) ≡ true = ground arith in
          elim (Bool-cases (exempt path m)) [
            | inl t ↦ inl (ap (exempt path) (sym same) ∙ t)
            | inr t ↦
                inr (
                  ap (λ (k : MethodPermissions). all_built r k.actions) (sym which)
                  ∙ (ground arith))
          ]
      | inr s ↦ grants_built-found exempt r path method grants grant (ground arith) (rw s at e)
    ]

table_built-found :
    (exempt : String → String → Bool) (r : Request) (path : String) (table : RouteGrants)
    (grants : MethodGrants)
    → table_built exempt r table ≡ true
    → find_key path table ≡ some grants
    → grants_built exempt r path grants ≡ true
unfolding table_built find_key
table_built-found exempt r path [] grants h e = cc e
table_built-found exempt r path ((p, g) ∷ table) grants h e = elim (Bool-cases (p == path)) [
  | inl s ↦
      let same : p ≡ path = (eq_iff p path).0 s in
      let which : g ≡ grants = cc (rw s at e) in
      let first : grants_built exempt r p g ≡ true = ground arith in
      subst (λ k. grants_built exempt r path k ≡ true) which
        (ap (λ k. grants_built exempt r k g) (sym same) ∙ first)
  | inr s ↦ table_built-found exempt r path table grants (ground arith) (rw s at e)
]

module _ (compile : Compile) (d : DesktopApi) (user : User) (r : Request) where
  check_actions-built :
      (tmpls : List ActionTemplate) (actions : List ApiAction)
      → all_built r tmpls ≡ true
      → check_actions compile d user r tmpls actions ≢ action_panic
  unfolding check_actions all_built built
  check_actions-built [] actions h e = cc e
  check_actions-built (tmpl ∷ tmpls) actions h e =
      elim (Option-cases (build_action_from_template tmpl r)) [
        | inl n ↦ cc (rw n at h)
        | inr (action, n) ↦
            let e' = rw (n, check_actions) at e in
            elim (Bool-cases (evaluate_user compile user action).0) [
              | inl t ↦
                  check_actions-built tmpls (actions ++ (evaluate_user compile user action).1 ∷ [])
                    (rw n at h) (rw t at e')
              | inr t ↦ cc (rw t at e')
            ]
      ]

  finish-not_panicked :
      (res : Response) (allowed owner : Bool) (actions : List ApiAction)
      → res ≢ panicked
      → (finish compile d user r res allowed owner actions).response ≢ panicked
  unfolding finish
  finish-not_panicked res allowed owner actions n = n

  run_extra_check-not_panicked :
      (extra : Option ExtraCheckFunc) (actions : List ApiAction)
      → (run_extra_check compile d user r extra actions).response ≢ panicked
  unfolding run_extra_check finish
  run_extra_check-not_panicked none actions e = cc e
  run_extra_check-not_panicked (some f) actions e = go (extra_check_of compile d user r f) refl
    where
      go : (c : Check) → extra_check_of compile d user r f ≡ c → ⊥
      go allow k = cc (rw (k, run_extra_check) at e)
      go deny k = cc (rw (k, run_extra_check) at e)
      go fail k = cc (rw (k, run_extra_check) at e)

  run_actions-not_panicked :
      (grant : MethodPermissions)
      → all_built r grant.actions ≡ true
      → (run_actions compile d user r grant).response ≢ panicked
  unfolding run_actions finish
  run_actions-not_panicked grant b e = go (check_actions compile d user r grant.actions []) refl
    where
      go : (c : ActionsResult) → check_actions compile d user r grant.actions [] ≡ c → ⊥
      go (all_allowed actions) k =
          run_extra_check-not_panicked grant.extra_check_func actions (rw (k, run_actions) at e)
      go (denied action actions) k = cc (rw (k, run_actions) at e)
      go action_panic k = check_actions-built grant.actions [] b k

  run_grant-not_panicked :
      (grant : MethodPermissions)
      → all_built r grant.actions ≡ true
      → (run_grant compile d user r grant).response ≢ panicked
  unfolding run_grant run_override finish
  run_grant-not_panicked grant b e = go grant.override_func refl
    where
      over :
          (f : OverrideFunc)
          → (o : Override) → override_of compile d user r f ≡ o
          → (run_override compile d user r grant f).response ≡ panicked
          → ⊥
      over f none k h = cc (rw (k, run_override) at h)
      over f (some (true, owner)) k h = cc (rw (k, run_override) at h)
      over f (some (false, owner)) k h =
          run_actions-not_panicked grant b (rw (k, run_override) at h)

      go : (o : Option OverrideFunc) → grant.override_func ≡ o → ⊥
      go none k = run_actions-not_panicked grant b (rw (k, run_grant) at e)
      go (some f) k = over f (override_of compile d user r f) refl (rw (k, run_grant) at e)

  pub validate-not_panicked :
      (exempt : String → String → Bool)
      → exempt r.path r.method ≡ false
      → table_built exempt r router_grant_requirements ≡ true
      → (validate_user_grants compile d user r).response ≢ panicked
  unfolding validate_user_grants
  validate-not_panicked exempt x t h =
      elim (Option-cases (find_key r.path router_grant_requirements)) [
        | inl e ↦ cc (rw (e, validate_user_grants) at h)
        | inr (grants, e) ↦
            let h' = rw (e, validate_user_grants) at h in
            elim (Option-cases (find_key r.method grants)) [
              | inl f ↦ cc (rw f at h')
              | inr (grant, f) ↦
                  elim (grants_built-found exempt r r.path r.method grants grant
                    (table_built-found exempt r r.path router_grant_requirements grants t e) f) [
                      | inl y ↦ cc (x, y)
                      | inr y ↦ run_grant-not_panicked grant y (rw f at h')
                    ]
            ]
      ]
