-- ===== src/Reconcile/Tests.antt =====
-- Runs of the reconcile functions, and each theorem about them at an input.
use webmesh_vdi.Prelude.{
  ◌≡◌, refl, arith, eq_iff, String, true, false, Option, some, List, [], ◌∷◌, if◌then◌else◌,
}
use mathlib.Core.Path.{subst}
use webmesh_vdi.Desktop.Keyed.{lookup_key, put_key}
use webmesh_vdi.Desktop.Types.{done, requeue}
use webmesh_vdi.Rbac.Rule.{Rule}
use webmesh_vdi.Api.Request.{UpdateRoleRequest, update_role_rules}
use webmesh_vdi.Reconcile.Types.{
  Object, StoredObject, Calls, creation_spec_annotation, same_checksum, annotated,
  set_creation_spec_annotation, creation_specs_equal,
}
use webmesh_vdi.Reconcile.Kinds.{
  with_spec, with_labels, create_object, update_object, update_changed, annotate_and, updating,
  config_map, cluster_role, cluster_role_binding, vdi_role, prometheus, service_monitor, service,
  pod, check_ready, created_deployment, apply_deployment, deployment,
}
use webmesh_vdi.Reconcile.Settled.{AllOk, Honest, Settles, updates-Settle}
use webmesh_vdi.Reconcile.Recreated.{vanish, recreates-Settle}
use webmesh_vdi.Reconcile.Roles.{role_ok, update_role, vdi_role-update_role}

abbrev calls : Calls
calls = record {
  get_ok = true;
  create_ok = true;
  update_ok = true;
  delete_ok = true;
  get_again_ok = true;
}

-- Only a Get is answered.
abbrev reads : Calls
reads = record {
  get_ok = true;
  create_ok = false;
  update_ok = false;
  delete_ok = false;
  get_again_ok = true;
}

calls-AllOk : AllOk calls
calls-AllOk = record { got = refl; created = refl; updated = refl; deleted = refl }

-- The spec is a text, and its own checksum.
abbrev text_sum : Object String → Option String
text_sum o = some o.spec

abbrev wanted : Object String
wanted = record { spec = "v2"; labels = []; annotations = [] }

abbrev older : StoredObject String
older = record {
  object = record { spec = "v1"; labels = []; annotations = (creation_spec_annotation, "v1") ∷ [] };
  is_terminating = false;
  ready_replicas = 1;
}

reconcile_run : Unit {0}
unfolding lookup_key put_key same_checksum annotated set_creation_spec_annotation
    creation_specs_equal with_spec with_labels create_object update_object update_changed
    annotate_and updating config_map check_ready created_deployment apply_deployment deployment
reconcile_run = tt

-- A deployment that is updated is not ready until its replicas are.
deployment_waits : (deployment calls text_sum 2 true wanted (some older)).0 ≡ requeue 3
unfolding reconcile_run
deployment_waits = refl

some-inj :
    (s t : StoredObject String) → ◌≡◌ {A = Option (StoredObject String)} (some s) (some t) → s ≡ t
some-inj s t h = cc h

other_sum : Honest wanted "v2" older
unfolding lookup_key
other_sum h = absurd (ground (arith, eq_iff "v1" "v2", h))

older-Honest : (old : StoredObject String) → some older ≡ some old → Honest wanted "v2" old
older-Honest old h = subst (Honest wanted "v2") (some-inj older old h) other_sum

updates-Settle_example :
    Settles
      (config_map reads text_sum wanted)
      wanted
      (config_map calls text_sum wanted (some older))
    × Settles
        (cluster_role reads text_sum wanted)
        wanted
        (cluster_role calls text_sum wanted (some older))
    × Settles
        (cluster_role_binding reads text_sum wanted)
        wanted
        (cluster_role_binding calls text_sum wanted (some older))
    × Settles (vdi_role reads text_sum wanted) wanted (vdi_role calls text_sum wanted (some older))
    × Settles
        (prometheus reads text_sum wanted)
        wanted
        (prometheus calls text_sum wanted (some older))
    × Settles
        (service_monitor reads text_sum wanted)
        wanted
        (service_monitor calls text_sum wanted (some older))
updates-Settle_example =
    updates-Settle text_sum wanted "v2" refl calls reads (some older) calls-AllOk refl older-Honest

recreates-Settle_example :
    Settles
      (pod reads text_sum wanted)
      wanted
      (pod calls text_sum wanted (vanish (pod calls text_sum wanted (some older)).1))
    × Settles
        (service reads text_sum wanted)
        wanted
        (service calls text_sum wanted (service calls text_sum wanted (some older)).1)
recreates-Settle_example =
    recreates-Settle text_sum wanted "v2" refl calls reads calls-AllOk refl (some older)
      older-Honest

abbrev everything : Rule
everything = record {
  verbs = "*" ∷ [];
  resources = "*" ∷ [];
  resource_patterns = ".*" ∷ [];
  namespaces = "*" ∷ [];
}

abbrev admin_role : Object (List Rule)
admin_role = record { spec = everything ∷ []; labels = []; annotations = [] }

abbrev stored_admin : StoredObject (List Rule)
stored_admin = record {
  object = record admin_role { annotations = (creation_spec_annotation, "sum") ∷ [] };
  is_terminating = false;
  ready_replicas = 0;
}

abbrev no_rules : UpdateRoleRequest
no_rules = record { rules = some [] }

vdi_role-update_role_example :
    ((update_role calls [] no_rules (some stored_admin)).0 ≡ role_ok)
    × ((s : StoredObject (List Rule)) × (vdi_role calls
            (λ o. some "sum")
            admin_role
            (update_role calls [] no_rules (some stored_admin)).1
          ≡ (done tt, some s))
        × (s.object.spec ≡ (
            if same_checksum (some "sum") (lookup_key creation_spec_annotation [])
            then update_role_rules no_rules
            else admin_role.spec)))
vdi_role-update_role_example =
    vdi_role-update_role (λ o. some "sum") admin_role "sum" calls calls [] no_rules stored_admin
      refl calls-AllOk calls-AllOk
