-- ===== src/Reconcile/Roles.antt =====
-- The roles that the API writes and the app reconciler restores: CreateRole, UpdateRole and
-- DeleteRole of pkg/api against VDIRole of pkg/util/reconcile.
use webmesh_vdi.Prelude.{
  ◌≡◌, refl, ◌∙◌, ap, inl, inr, String, false, Option, none, some, List, [], ◌∷◌, Bool-cases,
  if◌then◌else◌,
}
use webmesh_vdi.Desktop.Keyed.{lookup_key}
use webmesh_vdi.Desktop.Types.{done}
use webmesh_vdi.Rbac.Rule.{Rule}
use webmesh_vdi.Api.Request.{
  CreateRoleRequest, UpdateRoleRequest, create_role_rules, update_role_rules,
}
use webmesh_vdi.Reconcile.Types.{
  Object, StoredObject, Calls, creation_spec_annotation, same_checksum,
}
use webmesh_vdi.Reconcile.Kinds.{with_labels, update_object, update_changed, vdi_role}
use webmesh_vdi.Reconcile.Settled.{AllOk, updating_annotated, signed, equal_signed}

pub data RoleReply : Type 0 where
  role_ok role_not_found role_error : RoleReply

-- The role of the request's name in the cluster.
abbrev pub Role : Type 0
Role = Option (StoredObject (List Rule))

-- newRoleFromRequest, for a cluster of this name.
unfoldable pub new_role_from_request :
    String → List (String × String) → CreateRoleRequest → Object (List Rule)
new_role_from_request cluster annotations req = record {
  spec = create_role_rules req;
  labels = ("kvdi.io/cluster-ref", cluster) ∷ [];
  annotations = annotations;
}

-- The annotations of a request stand beside it.
module _ (c : Calls) where
  unfoldable pub create_role :
      String → List (String × String) → CreateRoleRequest → Role → RoleReply × Role
  create_role cluster annotations req none =
      if c.create_ok
      then (
        role_ok,
        some (record {
          object = new_role_from_request cluster annotations req;
          is_terminating = false;
          ready_replicas = 0;
        }),
      )
      else (role_error, none)
  create_role cluster annotations req (some old) = (role_error, some old)

  unfoldable pub edited :
      List (String × String)
      → UpdateRoleRequest
      → StoredObject (List Rule)
      → StoredObject (List Rule)
  edited annotations req old = record old {
    object = record (old.object) { spec = update_role_rules req; annotations = annotations };
  }

  unfoldable pub update_role : List (String × String) → UpdateRoleRequest → Role → RoleReply × Role
  unfolding edited
  update_role annotations req none = (if c.get_ok then role_not_found else role_error, none)
  update_role annotations req (some old) =
      if c.get_ok
      then (if c.update_ok
          then (role_ok, some (edited annotations req old))
          else (role_error, some old))
      else (role_error, some old)

  unfoldable pub delete_role : Role → RoleReply × Role
  delete_role none = (if c.get_ok then role_not_found else role_error, none)
  delete_role (some old) =
      if c.get_ok
      then (if c.delete_ok then (role_ok, none) else (role_error, some old))
      else (role_error, some old)

-- What UpdateRole and a reconcile after it leave of the rules of a role that the reconciler wants:
-- the rules of the request if its annotations carry the checksum of the wanted role, and the wanted
-- rules otherwise. UpdateRole answers that it has succeeded in both cases. The API server answers, the
-- role was there, and the checksum of the wanted role can be computed.
pub vdi_role-update_role :
    (checksum : Object (List Rule) → Option String) (wanted : Object (List Rule)) (sum : String)
    (c c' : Calls) (annotations : List (String × String)) (req : UpdateRoleRequest)
    (old : StoredObject (List Rule))
    → checksum wanted ≡ some sum
    → AllOk c
    → AllOk c'
    → ((update_role c annotations req (some old)).0 ≡ role_ok)
      × ((s : StoredObject (List Rule)) × (vdi_role c' checksum wanted
              (update_role c annotations req (some old)).1
            ≡ (done tt, some s))
          × (s.object.spec ≡ (
              if same_checksum (some sum) (lookup_key creation_spec_annotation annotations)
              then update_role_rules req
              else wanted.spec)))
unfolding update_role edited vdi_role with_labels update_changed update_object
vdi_role-update_role checksum wanted sum c c' annotations req old h ok ok' =
    let after = edited c annotations req old in
    let first : update_role c annotations req (some old) ≡ (role_ok, some after) =
      simp (ok.got, ok.updated) refl in
    let again = updating_annotated checksum wanted sum h c' with_labels (some after) ok'.got in
    let test = equal_signed wanted after.object sum in
    (
      ap (λ (p : RoleReply × Role). p.0) first,
      elim (Bool-cases
          (same_checksum (some sum) (lookup_key creation_spec_annotation annotations))) [
            | inl q ↦
                let equal = test ∙ q in
                (
                  after,
                  ap (λ (p : RoleReply × Role). vdi_role c' checksum wanted p.1) first
                      ∙ again
                      ∙ (simp equal refl),
                  simp q refl,
                )
            | inr q ↦
                let differ = test ∙ q in
                (
                  record after { object = with_labels (signed wanted sum) after.object },
                  ap (λ (p : RoleReply × Role). vdi_role c' checksum wanted p.1) first
                      ∙ again
                      ∙ (simp (differ, ok'.updated) refl),
                  simp q refl,
                )
          ],
    )
