-- ===== src/Api/Decoded.antt =====
-- A decoded request does not make the checks panic.
use webmesh_vdi.Prelude.{
  String, ◌≡◌, ◌≢◌, refl, sym, ap, inl, inr, true, false, Option, some, arith, eq_iff, Bool-cases,
  Option-cases,
}
use mathlib.Core.Path.{subst}
use webmesh_vdi.Rbac.Rule.{Compile}
use webmesh_vdi.Rbac.Types.{User}
use webmesh_vdi.Api.Request.{Request, RequestObject, create_session, CreateSessionRequest}
use webmesh_vdi.Api.Validation.{
  create_session_kind, Unmarshal, validate_object, decoders, find_decoder, reflect_and_decode,
  decode_request,
}
use webmesh_vdi.Api.Cluster.{DesktopApi}
use webmesh_vdi.Api.Grants.Table.{router_grant_requirements}
use webmesh_vdi.Api.Permission.{panicked, validate_user_grants}
use webmesh_vdi.Api.Built.{
  starts_session, table_built, session_checked, table_checked, validate-not_panicked,
}

HasSession : Request → Type 0
HasSession r = (q : CreateSessionRequest) × (r.object ≡ some (create_session q))

not_panicked :
    (compile : Compile) (d : DesktopApi) (user : User) (r : Request)
    → (starts_session r.path r.method ≡ true → HasSession r)
    → (validate_user_grants compile d user r).response ≢ panicked
unfolding HasSession
not_panicked compile d user r s = elim (Bool-cases (starts_session r.path r.method)) [
  | inl e ↦
      let (q, o) = s e in
      let same : record r { object = some (create_session q) } ≡ r =
        ap (λ (x : Option RequestObject). record r { object = x }) (sym o) in
      validate-not_panicked compile d user r (λ path method. false) refl
        (subst (λ r'. table_built (λ path method. false) r' router_grant_requirements ≡ true) same
          (session_checked r q))
  | inr e ↦ validate-not_panicked compile d user r starts_session e (table_checked r)
]

session_decoder :
    (path method : String)
    → starts_session path method ≡ true
    → find_decoder decoders path method ≡ some create_session_kind
unfolding starts_session find_decoder decoders
session_decoder path method h =
    let p : path ≡ "/api/sessions" = (eq_iff path "/api/sessions").0 (ground arith) in
    let m : method ≡ "POST" = (eq_iff method "POST").0 (ground arith) in rw (p, m)

module _ (compile : Compile) (unmarshal : Unmarshal) where
  decoded_session :
      (o : RequestObject)
      → reflect_and_decode compile unmarshal create_session_kind ≡ some o
      → (q : CreateSessionRequest) × (o ≡ create_session q)
  unfolding reflect_and_decode
  decoded_session o h = elim (Option-cases (unmarshal create_session_kind)) [
    | inl e ↦ cc (rw (e, reflect_and_decode) at h)
    | inr (q, e) ↦
        let h' = rw (e, reflect_and_decode) at h in
        elim (Bool-cases (validate_object compile (create_session q))) [
          | inl v ↦ (q, cc (rw v at h'))
          | inr v ↦ cc (rw v at h')
        ]
  ]

  -- The checks of a request that DecodeRequest has let through never panic: where a grant reads the
  -- request object, the decoder of that route and method has put an object of that type there.
  pub decoded_not_panicked :
      (d : DesktopApi) (user : User) (r r' : Request)
      → decode_request compile unmarshal r ≡ some r'
      → (validate_user_grants compile d user r').response ≢ panicked
  unfolding decode_request HasSession
  decoded_not_panicked d user r r' h =
      let Calm = λ (x : Request). (validate_user_grants compile d user x).response ≢ panicked in
      elim (Option-cases (find_decoder decoders r.path r.method)) [
        | inl e ↦
            let same : r ≡ r' = cc (rw (e, decode_request) at h) in
            subst Calm same
              (not_panicked compile d user r (λ s. cc (session_decoder r.path r.method s, e)))
        | inr (k, e) ↦
            let h' = rw (e, decode_request) at h in
            elim (Option-cases (reflect_and_decode compile unmarshal k)) [
              | inl f ↦ cc (rw f at h')
              | inr (o, f) ↦
                  let same : record r { object = some o } ≡ r' = cc (rw f at h') in
                  subst Calm same (
                    not_panicked compile d user (record r { object = some o })
                      (λ s.
                        let kind : k ≡ create_session_kind =
                          cc (e, session_decoder r.path r.method s) in
                        let (q, g) =
                          decoded_session o
                            (subst (λ x. reflect_and_decode compile unmarshal x ≡ some o) kind f) in
                        (q, ap some g)))
            ]
      ]
