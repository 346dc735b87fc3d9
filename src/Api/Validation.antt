-- ===== src/Api/Validation.antt =====
-- The Validate methods of the request types, and DecodeRequest of pkg/api/api_decoder.go.
use webmesh_vdi.Prelude.{
  String, Bool, true, false, ◌&&◌, ◌||◌, Option, none, some, List, [], ◌∷◌, length, if◌then◌else◌,
}
use webmesh_vdi.Prelude.Tests.{◌==◌ as eqb}
use text.Mathlib.Text.{◌==◌, find?}
use webmesh_vdi.Rbac.Rule.{Rule, Compile}
use webmesh_vdi.Api.Request.{
  CreateUserRequest, UpdateUserRequest, CreateRoleRequest, UpdateRoleRequest, CreateSessionRequest,
  AuthorizeRequest, UpdateMfaRequest, RequestObject, authorize, create_session, create_user,
  update_user, update_mfa, create_role, update_role, template, login, Request,
}

abbrev is_some {ℓ} : {A : Type ℓ} → Option A → Bool
is_some none = false
is_some (some a) = true

-- `true` is the nil error.
unfoldable pub validate_create_user : CreateUserRequest → Bool
validate_create_user r =
    if r.username == "" || r.password == ""
    then false
    else if eqb (length r.roles) 0
    then false
    else if is_some (find? r.username ":")
    then false
    else true

unfoldable pub validate_update_user : UpdateUserRequest → Bool
validate_update_user r = if r.password == "" && eqb (length r.roles) 0 then false else true

unfoldable pub validate_create_session : CreateSessionRequest → Bool
validate_create_session r = if r.template == "" then false else true

module _ (compile : Compile) where
  unfoldable pub validate_patterns : List String → Bool
  validate_patterns [] = true
  validate_patterns (pat ∷ pats) = if is_some (compile pat) then validate_patterns pats else false

  unfoldable pub validate_rules : List Rule → Bool
  validate_rules [] = true
  validate_rules (rule ∷ rules) =
      if validate_patterns rule.resource_patterns then validate_rules rules else false

  abbrev rules_of_nil : Option (List Rule) → List Rule
  rules_of_nil none = []
  rules_of_nil (some rules) = rules

  unfoldable pub validate_create_role : CreateRoleRequest → Bool
  validate_create_role r = if r.name == "" then false else validate_rules (rules_of_nil r.rules)

  unfoldable pub validate_update_role : UpdateRoleRequest → Bool
  validate_update_role r = validate_rules (rules_of_nil r.rules)

  -- The call of Validate, where the object has that method.
  unfoldable pub validate_object : RequestObject → Bool
  validate_object (authorize r) = true
  validate_object (create_session r) = validate_create_session r
  validate_object (create_user r) = validate_create_user r
  validate_object (update_user r) = validate_update_user r
  validate_object (update_mfa r) = true
  validate_object (create_role r) = validate_create_role r
  validate_object (update_role r) = validate_update_role r
  validate_object template = true
  validate_object (login u p) = true

-- The types that the decoder table names, and their request objects.
pub data ObjectKind : Type 0 where
  authorize_kind create_session_kind create_user_kind update_user_kind : ObjectKind
  update_mfa_kind create_role_kind update_role_kind template_kind login_kind : ObjectKind

abbrev pub ObjectOf : ObjectKind → Type 0
ObjectOf authorize_kind = AuthorizeRequest
ObjectOf create_session_kind = CreateSessionRequest
ObjectOf create_user_kind = CreateUserRequest
ObjectOf update_user_kind = UpdateUserRequest
ObjectOf update_mfa_kind = UpdateMfaRequest
ObjectOf create_role_kind = CreateRoleRequest
ObjectOf update_role_kind = UpdateRoleRequest
ObjectOf template_kind = Unit
ObjectOf login_kind = String × String

abbrev pub to_object : (k : ObjectKind) → ObjectOf k → RequestObject
to_object authorize_kind r = authorize r
to_object create_session_kind r = create_session r
to_object create_user_kind r = create_user r
to_object update_user_kind r = update_user r
to_object update_mfa_kind r = update_mfa r
to_object create_role_kind r = create_role r
to_object update_role_kind r = update_role r
to_object template_kind r = template
to_object login_kind r = login r.0 r.1

unfoldable pub decoders : List (String × String × ObjectKind)
decoders =
    ("/api/authorize", "POST", authorize_kind)
    ∷ ("/api/sessions", "POST", create_session_kind)
    ∷ ("/api/users", "POST", create_user_kind)
    ∷ ("/api/users/{user}", "PUT", update_user_kind)
    ∷ ("/api/users/{user}/mfa", "PUT", update_mfa_kind)
    ∷ ("/api/users/{user}/mfa/verify", "PUT", authorize_kind)
    ∷ ("/api/roles", "POST", create_role_kind)
    ∷ ("/api/templates", "POST", template_kind)
    ∷ ("/api/roles/{role}", "PUT", update_role_kind)
    ∷ ("/api/login", "POST", login_kind)
    ∷ []

unfoldable pub find_decoder :
    List (String × String × ObjectKind) → String → String → Option ObjectKind
find_decoder [] path method = none
find_decoder ((p, m, k) ∷ table) path method =
    if p == path && m == method then some k else find_decoder table path method

-- `json.Unmarshal` of the body into a value of the type, `none` for its error.
abbrev pub Unmarshal : Type 0
Unmarshal = (k : ObjectKind) → Option (ObjectOf k)

module _ (compile : Compile) (unmarshal : Unmarshal) where
  unfoldable pub reflect_and_decode : ObjectKind → Option RequestObject
  reflect_and_decode k = elim (unmarshal k) [
    | none ↦ none
    | some r ↦ if validate_object compile (to_object k r) then some (to_object k r) else none
  ]

  -- The request with its object, or `none` for the API error that ends it.
  unfoldable pub decode_request : Request → Option Request
  decode_request r = elim (find_decoder decoders r.path r.method) [
    | none ↦ some r
    | some k ↦ elim (reflect_and_decode k) [
      | none ↦ none
      | some o ↦ some (record r { object = some o })
    ]
  ]
