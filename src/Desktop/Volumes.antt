-- ===== src/Desktop/Volumes.antt =====
-- volumes.go and volume_util.go of pkg/resources/desktop, with PersistentVolumeClaim of
-- pkg/util/reconcile.
use webmesh_vdi.Prelude.{
  String, Bool, true, false, not, ◌||◌, Option, none, some, List, [], if◌then◌else◌,
}
use text.Mathlib.Text.{◌==◌}
use webmesh_vdi.Desktop.Keyed.{lookup_key, put_key}
use webmesh_vdi.Desktop.Types.{
  ReclaimPolicy, retain, delete, recycle, Volume, VolumeClaim, ClusterConfig, Answers, done,
  not_found, api_error, requeue, Action, then_run, ◌>>=◌, fail,
}

unfoldable pub is_retain : ReclaimPolicy → Bool
is_retain retain = true
is_retain delete = false
is_retain recycle = false

unfoldable pub is_claimed : Volume → Bool
is_claimed v = elim v.claim_ref [ none ↦ false | some claim ↦ true ]

abbrev pub free_volume : Volume
free_volume = record { policy = retain; claim_ref = none }

module _ (a : Answers) where
  -- freePV: whether the volume had to be changed.
  unfoldable pub free_pv : String → Volume → Action Bool
  free_pv name v k =
      if not (is_retain v.policy) || is_claimed v
      then (if a.update_volume_ok
          then (done true, record k { volumes = put_key name free_volume k.volumes })
          else (api_error, k))
      else (done false, k)

  -- getPVCForInstance
  unfoldable pub get_pvc_for_instance : Action VolumeClaim
  get_pvc_for_instance k =
      if a.get_claim_ok
      then (elim k.claim [ none ↦ not_found | some claim ↦ done claim ], k)
      else (api_error, k)

  -- getPV
  unfoldable pub get_pv : String → Action Volume
  get_pv name k =
      if a.get_volume_ok
      then (elim (lookup_key name k.volumes) [ none ↦ not_found | some v ↦ done v ], k)
      else (api_error, k)

  -- The new config map of getVolMapForCluster, and its second Get.
  unfoldable pub create_vol_map : Action (List (String × String))
  create_vol_map k =
      if a.create_map_ok
      then (if a.get_new_map_ok then done [] else api_error, record k { volume_map = some [] })
      else (api_error, k)

  -- getVolMapForCluster
  unfoldable pub get_vol_map_for_cluster : Action (List (String × String))
  unfolding create_vol_map
  get_vol_map_for_cluster k =
      if a.get_map_ok
      then elim k.volume_map [ none ↦ create_vol_map k | some entries ↦ (done entries, k) ]
      else (api_error, k)

  -- The volume of the user that still exists, or the empty name.
  unfoldable pub existing_volume : Option String → Action String
  existing_volume none k = (done "", k)
  existing_volume (some name) k =
      if a.get_volume_ok
      then (elim (lookup_key name k.volumes) [ none ↦ done "" | some v ↦ done name ], k)
      else (api_error, k)

  module _ (cluster : ClusterConfig) (user : String) where
    -- newPVCForUser, where the cluster has a userdataSpec with this volume name.
    unfoldable pub new_pvc_for_user : String → String → VolumeClaim
    new_pvc_for_user spec_volume existing = record {
      volume_name = if existing == "" then spec_volume else existing;
      owned = not cluster.retain_pvcs;
      terminating = false;
    }

    -- reconcile.PersistentVolumeClaim: one that is there is left alone.
    unfoldable pub persistent_volume_claim : VolumeClaim → Action Unit
    persistent_volume_claim claim k =
        if a.get_claim_ok
        then (elim k.claim [
          | none ↦
              if a.create_claim_ok
              then (done tt, record k { claim = some claim })
              else (api_error, k)
          | some old ↦ (done tt, k)
        ])
        else (api_error, k)

    -- reconcileVolumes
    unfoldable pub reconcile_volumes : String → Action Unit
    unfolding then_run
    reconcile_volumes spec_volume = do
      entries ← get_vol_map_for_cluster
      existing ← existing_volume (lookup_key user entries)
      persistent_volume_claim (new_pvc_for_user spec_volume existing)

    unfoldable pub set_mapping : String → List (String × String) → Action Unit
    set_mapping name entries k =
        if a.update_map_ok
        then (done tt, record k { volume_map = some (put_key user name entries) })
        else (api_error, k)

    unfoldable pub replace_entry : Option String → String → List (String × String) → Action Unit
    unfolding set_mapping
    replace_entry none name entries k = set_mapping name entries k
    replace_entry (some old) name entries k =
        if not (old == name) then set_mapping name entries k else (done tt, k)

    unfoldable pub update_mapping : String → List (String × String) → Action Unit
    unfolding replace_entry
    update_mapping name entries k = replace_entry (lookup_key user entries) name entries k

    unfoldable pub map_volume : String → Action Unit
    unfolding then_run
    map_volume name = do
      v ← get_pv name
      changed ← free_pv name v
      entries ← get_vol_map_for_cluster
      update_mapping name entries

    -- reconcileUserdataMapping
    unfoldable pub provisioned : VolumeClaim → Action Unit
    unfolding map_volume
    provisioned claim =
        if claim.volume_name == "" then fail (requeue 3) else map_volume claim.volume_name

    unfoldable pub reconcile_userdata_mapping : Action Unit
    unfolding then_run provisioned
    reconcile_userdata_mapping = do claim ← get_pvc_for_instance; provisioned claim
