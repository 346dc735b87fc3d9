-- ===== src/Api/Routes.antt =====
-- The protected subrouter of buildRouter in pkg/api/api_router.go against the table of grants.
use webmesh_vdi.Prelude.{
  String, ◌≡◌, ◌≢◌, refl, ◌⊎◌, inl, inr, Bool, true, false, Option, none, some, List, [], ◌∷◌,
  arith, if◌then◌else◌, Any, Option-cases,
}
use mathlib.Core.Path.{subst}
use webmesh_vdi.Api.Grants.Types.{
  OverrideFunc, ActionTemplate, MethodPermissions, MethodGrants, find_key,
}
use webmesh_vdi.Api.Grants.Table.{router_grant_requirements}

-- The path templates with the prefix of the subrouter, and the method that each route is limited to.
unfoldable pub protected_routes : List (String × Option String)
protected_routes =
    ("/api/authorize", some "POST")
    ∷ ("/api/logout", some "POST")
    ∷ ("/api/whoami", some "GET")
    ∷ ("/api/config", some "GET")
    ∷ ("/api/namespaces", some "GET")
    ∷ ("/api/serviceaccounts/{namespace}", some "GET")
    ∷ ("/api/users", some "GET")
    ∷ ("/api/users", some "POST")
    ∷ ("/api/users/{user}", some "GET")
    ∷ ("/api/users/{user}", some "PUT")
    ∷ ("/api/users/{user}/mfa", some "GET")
    ∷ ("/api/users/{user}/mfa", some "PUT")
    ∷ ("/api/users/{user}/mfa/verify", some "PUT")
    ∷ ("/api/users/{user}", some "DELETE")
    ∷ ("/api/roles", some "GET")
    ∷ ("/api/roles", some "POST")
    ∷ ("/api/roles/{role}", some "GET")
    ∷ ("/api/roles/{role}", some "PUT")
    ∷ ("/api/roles/{role}", some "DELETE")
    ∷ ("/api/templates", some "GET")
    ∷ ("/api/templates", some "POST")
    ∷ ("/api/templates/{template}", some "GET")
    ∷ ("/api/templates/{template}", some "PUT")
    ∷ ("/api/templates/{template}", some "DELETE")
    ∷ ("/api/sessions", some "GET")
    ∷ ("/api/sessions", some "POST")
    ∷ ("/api/sessions/{namespace}/{name}", some "GET")
    ∷ ("/api/sessions/{namespace}/{name}", some "DELETE")
    ∷ ("/api/desktops/{namespace}/{name}/logs/{container}", some "GET")
    ∷ ("/api/desktops/ws/{namespace}/{name}/status", none)
    ∷ ("/api/desktops/ws/{namespace}/{name}/logs/{container}", none)
    ∷ ("/api/desktops/ws/{namespace}/{name}/display", none)
    ∷ ("/api/desktops/ws/{namespace}/{name}/audio", none)
    ∷ ("/api/desktops/fs/{namespace}/{name}/stat/", some "GET")
    ∷ ("/api/desktops/fs/{namespace}/{name}/get/", some "GET")
    ∷ ("/api/desktops/fs/{namespace}/{name}/put", some "PUT")
    ∷ []

-- The routes without a limit are websockets, which are opened by GET.
abbrev pub method_of : Option String → String
method_of none = "GET"
method_of (some method) = method

-- The grant of a route and method asks for an override or for at least one action.
abbrev pub Guarded : String → String → Type 0
Guarded path method =
    (grants : MethodGrants) × (grant : MethodPermissions) × (find_key path router_grant_requirements
      ≡ some grants)
    × (find_key method grants ≡ some grant)
    × ((grant.override_func ≢ none) ⊎ (grant.actions ≢ []))

asks_for : Option OverrideFunc → List ActionTemplate → Bool
asks_for none [] = false
asks_for _ _ = true

asks_for-cases :
    (o : Option OverrideFunc) (acts : List ActionTemplate)
    → asks_for o acts ≡ true
    → (o ≢ none) ⊎ (acts ≢ [])
unfolding asks_for
asks_for-cases none [] h = cc
asks_for-cases none (a ∷ rest) h = inr (λ e. cc e)
asks_for-cases (some f) rest h = inl (λ e. cc e)

guarded_in : Option MethodGrants → String → Bool
guarded_in none method = false
guarded_in (some grants) method = elim (find_key method grants) [
  | none ↦ false
  | some grant ↦ asks_for grant.override_func grant.actions
]

Guarded-of_guarded_in :
    (path method : String)
    → guarded_in (find_key path router_grant_requirements) method ≡ true
    → Guarded path method
unfolding guarded_in
Guarded-of_guarded_in path method h =
    elim (Option-cases (find_key path router_grant_requirements)) [
      | inl e ↦ cc (rw (e, guarded_in) at h)
      | inr (grants, e) ↦
          let h' = rw (e, guarded_in) at h in
          elim (Option-cases (find_key method grants)) [
            | inl f ↦ cc (rw f at h')
            | inr (grant, f) ↦
                (grants, grant, e, f, asks_for-cases grant.override_func grant.actions (rw f at h'))
          ]
    ]

route_guarded : String × Option String → Bool
route_guarded (path, limit) = guarded_in (find_key path router_grant_requirements) (method_of limit)

all_guarded : List (String × Option String) → Bool
all_guarded [] = true
all_guarded (x ∷ xs) = if route_guarded x then all_guarded xs else false

all_guarded-Any :
    (path : String) (limit : Option String) (xs : List (String × Option String))
    → all_guarded xs ≡ true
    → Any (λ y. y ≡ (path, limit)) xs
    → route_guarded (path, limit) ≡ true
unfolding all_guarded
all_guarded-Any path limit [] h m = absurd m
all_guarded-Any path limit (x ∷ xs) h (inl e) = subst (λ y. route_guarded y ≡ true) e (ground arith)
all_guarded-Any path limit (x ∷ xs) h (inr m) = all_guarded-Any path limit xs (ground arith) m

routes_checked : all_guarded protected_routes ≡ true
unfolding all_guarded route_guarded guarded_in asks_for find_key router_grant_requirements
    protected_routes
routes_checked = refl

-- Every protected route has a grant for its method, and the grant names an override or an action: no
-- route is served without any check.
pub protected_route-Guarded :
    (path : String) (limit : Option String)
    → Any (λ y. y ≡ (path, limit)) protected_routes
    → Guarded path (method_of limit)
unfolding route_guarded
protected_route-Guarded path limit m =
    Guarded-of_guarded_in path (method_of limit)
      (all_guarded-Any path limit protected_routes routes_checked m)
