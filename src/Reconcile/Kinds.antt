-- ===== src/Reconcile/Kinds.antt =====
-- The functions of pkg/util/reconcile, one for each kind of object. The state is what the API server
-- has under the name of the object.
use webmesh_vdi.Prelude.{ℕ, String, Bool, true, false, not, Option, none, some, ◌==◌, if◌then◌else◌}
use webmesh_vdi.Desktop.Types.{ActionResult, done, not_found, api_error, requeue}
use webmesh_vdi.Reconcile.Types.{
  Object, StoredObject, Calls, set_creation_spec_annotation, creation_specs_equal,
}

abbrev pub Reconciled : Type 0 → Type 0
Reconciled S = ActionResult Unit × Option (StoredObject S)

-- The merges of an update: the spec and the annotations, and for some kinds the labels too.
unfoldable pub with_spec : {S : Type 0} → Object S → Object S → Object S
with_spec wanted old = record old { spec = wanted.spec; annotations = wanted.annotations }

unfoldable pub with_labels : {S : Type 0} → Object S → Object S → Object S
with_labels wanted old = record old {
  spec = wanted.spec;
  labels = wanted.labels;
  annotations = wanted.annotations;
}

module _ {S : Type 0} (c : Calls) where
  unfoldable pub create_object : Object S → Option (StoredObject S) → Reconciled S
  create_object wanted st =
      if c.create_ok
      then (done tt, some (record { object = wanted; is_terminating = false; ready_replicas = 0 }))
      else (api_error, st)

  unfoldable pub update_object : Object S → StoredObject S → Reconciled S
  update_object next old =
      if c.update_ok then (done tt, some (record old { object = next })) else (api_error, some old)

  -- Where the checksums differ, the object is updated.
  unfoldable pub update_changed :
      (Object S → Object S → Object S) → Object S → Option (StoredObject S) → Reconciled S
  unfolding create_object
  update_changed merge wanted none = create_object wanted none
  update_changed merge wanted (some old) =
      if not (creation_specs_equal wanted old.object)
      then update_object (merge wanted old.object) old
      else (done tt, some old)

  -- Get, behind the annotation of the wanted object.
  unfoldable pub annotate_and :
      (Object S → Option (StoredObject S) → Reconciled S)
      → Option (Object S)
      → Option (StoredObject S)
      → Reconciled S
  annotate_and rest none st = (api_error, st)
  annotate_and rest (some wanted) st = if c.get_ok then rest wanted st else (api_error, st)

  module _ (checksum : Object S → Option String) where
    unfoldable pub updating :
        (Object S → Object S → Object S) → Object S → Option (StoredObject S) → Reconciled S
    unfolding annotate_and update_changed
    updating merge wanted st =
        annotate_and (update_changed merge) (set_creation_spec_annotation checksum wanted) st

    unfoldable pub config_map : Object S → Option (StoredObject S) → Reconciled S
    config_map = updating with_spec

    unfoldable pub cluster_role : Object S → Option (StoredObject S) → Reconciled S
    cluster_role = updating with_spec

    unfoldable pub cluster_role_binding : Object S → Option (StoredObject S) → Reconciled S
    cluster_role_binding = updating with_spec

    unfoldable pub vdi_role : Object S → Option (StoredObject S) → Reconciled S
    vdi_role = updating with_labels

    unfoldable pub prometheus : Object S → Option (StoredObject S) → Reconciled S
    prometheus = updating with_labels

    unfoldable pub service_monitor : Object S → Option (StoredObject S) → Reconciled S
    service_monitor = updating with_labels

    -- ServiceAccount, which sets no annotation.
    unfoldable pub service_account : Object S → Option (StoredObject S) → Reconciled S
    unfolding create_object
    service_account wanted none = if c.get_ok then create_object wanted none else (api_error, none)
    service_account wanted (some old) = (if c.get_ok then done tt else api_error, some old)

    -- A service is deleted at once.
    unfoldable pub recreate_service : Object S → Option (StoredObject S) → Reconciled S
    unfolding create_object
    recreate_service wanted none = create_object wanted none
    recreate_service wanted (some old) =
        if not (creation_specs_equal wanted old.object)
        then (if c.delete_ok then (requeue 2, none) else (api_error, some old))
        else (done tt, some old)

    unfoldable pub service : Object S → Option (StoredObject S) → Reconciled S
    unfolding annotate_and recreate_service
    service wanted st =
        annotate_and recreate_service (set_creation_spec_annotation checksum wanted) st

    -- A pod goes on for a while once it is deleted. The first result of Pod, whether one was created,
    -- is left out: no caller reads it.
    unfoldable pub recreate_pod : Object S → Option (StoredObject S) → Reconciled S
    unfolding create_object
    recreate_pod wanted none = create_object wanted none
    recreate_pod wanted (some old) =
        if old.is_terminating
        then (requeue 3, some old)
        else if not (creation_specs_equal wanted old.object)
        then (if c.delete_ok
            then (requeue 3, some (record old { is_terminating = true }))
            else (api_error, some old))
        else (done tt, some old)

    unfoldable pub pod : Object S → Option (StoredObject S) → Reconciled S
    unfolding annotate_and recreate_pod
    pod wanted st = annotate_and recreate_pod (set_creation_spec_annotation checksum wanted) st

    -- The end of Deployment, for one with this number of replicas.
    unfoldable pub check_ready : ℕ → Reconciled S → Reconciled S
    check_ready replicas (done u, none) = (if c.get_again_ok then not_found else api_error, none)
    check_ready replicas (done u, some st) = (
      if c.get_again_ok
          then (if not (st.ready_replicas == replicas) then requeue 3 else done tt)
          else api_error,
      some st,
    )
    check_ready replicas (not_found, st) = (not_found, st)
    check_ready replicas (api_error, st) = (api_error, st)
    check_ready replicas (requeue n, st) = (requeue n, st)

    unfoldable pub created_deployment : Bool → Reconciled S → Reconciled S
    created_deployment wait (done u, st) = (if wait then requeue 3 else done tt, st)
    created_deployment wait (not_found, st) = (not_found, st)
    created_deployment wait (api_error, st) = (api_error, st)
    created_deployment wait (requeue n, st) = (requeue n, st)

    unfoldable pub apply_deployment : ℕ → Bool → Object S → Option (StoredObject S) → Reconciled S
    unfolding create_object created_deployment update_changed check_ready
    apply_deployment replicas wait wanted none = created_deployment wait (create_object wanted none)
    apply_deployment replicas wait wanted (some old) =
        if wait
        then check_ready replicas (update_changed with_spec wanted (some old))
        else update_changed with_spec wanted (some old)

    unfoldable pub deployment : ℕ → Bool → Object S → Option (StoredObject S) → Reconciled S
    unfolding annotate_and apply_deployment
    deployment replicas wait wanted st =
        annotate_and (apply_deployment replicas wait) (set_creation_spec_annotation checksum wanted)
          st
