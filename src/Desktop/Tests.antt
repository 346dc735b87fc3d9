-- ===== src/Desktop/Tests.antt =====
-- Runs of the volume functions, and each theorem about them at an input.
use webmesh_vdi.Prelude.{◌≡◌, refl, String, true, false, none, some, List, [], ◌∷◌}
use webmesh_vdi.Desktop.Keyed.{lookup_key, put_key}
use webmesh_vdi.Desktop.Types.{
  delete, VolumeClaim, missing, present, Kube, ClusterConfig, Answers, done, then_run,
}
use webmesh_vdi.Desktop.Volumes.{
  is_retain, is_claimed, free_volume, free_pv, get_pvc_for_instance, get_pv, create_vol_map,
  get_vol_map_for_cluster, existing_volume, new_pvc_for_user, persistent_volume_claim,
  reconcile_volumes, set_mapping, replace_entry, update_mapping, map_volume, provisioned,
  reconcile_userdata_mapping,
}
use webmesh_vdi.Desktop.Reclaim.{
  userdata_reclaim_finalizer, slice_contains, string_slice_remove, after_pod, remove_pod, pod_gone,
  remove_claim, after_claim, claim_gone, after_free, after_volume, volume_freed, reclaim_entry,
  reclaim_spec, reclaim_volumes, after_reclaim, run_finalizers, settled_pod, settled_claim, settled,
  finalize, again,
}
use webmesh_vdi.Desktop.Freed.{Reclaimed, run_finalizers-Reclaimed}
use webmesh_vdi.Desktop.Finalized.{IsUp, finalize-ends}
use webmesh_vdi.Desktop.Returned.{rounds, same_volume}

desktop_run : Unit {0}
unfolding lookup_key put_key then_run is_retain is_claimed free_pv get_pvc_for_instance get_pv
    create_vol_map get_vol_map_for_cluster existing_volume new_pvc_for_user persistent_volume_claim
    reconcile_volumes set_mapping replace_entry update_mapping map_volume provisioned
    reconcile_userdata_mapping slice_contains string_slice_remove after_pod remove_pod pod_gone
    remove_claim after_claim claim_gone after_free after_volume volume_freed reclaim_entry
    reclaim_spec reclaim_volumes after_reclaim run_finalizers settled_pod settled_claim settled
    finalize again rounds
desktop_run = tt

abbrev answers : Answers
answers = record {
  get_cluster_ok = true;
  get_pod_ok = true;
  delete_pod_ok = true;
  get_map_ok = true;
  create_map_ok = true;
  get_new_map_ok = true;
  update_map_ok = true;
  get_claim_ok = true;
  create_claim_ok = true;
  delete_claim_ok = true;
  get_volume_ok = true;
  update_volume_ok = true;
  update_session_ok = true;
  get_session_ok = true;
}

answers-IsUp : IsUp answers
answers-IsUp = record {
  cluster_answered = refl;
  pod_answered = refl;
  pod_deleted = refl;
  map_answered = refl;
  map_created = refl;
  map_read_back = refl;
  claim_answered = refl;
  claim_deleted = refl;
  volume_answered = refl;
  volume_updated = refl;
  session_updated = refl;
}

abbrev cluster : ClusterConfig
cluster = record { userdata_spec = some ""; retain_pvcs = false }

-- The claim of alice is bound to a volume that its class would delete.
abbrev bound_claim : VolumeClaim
bound_claim = record { volume_name = "pv-1"; owned = true; terminating = false }

abbrev running : Kube
running = record {
  pod = present;
  claim = some bound_claim;
  volumes = ("pv-1", record { policy = delete; claim_ref = some "alice" }) ∷ [];
  volume_map = none;
}

abbrev mapped_running : Kube
mapped_running = record running {
  volumes = ("pv-1", free_volume) ∷ [];
  volume_map = some (("alice", "pv-1") ∷ []);
}

abbrev reclaimed : Kube
reclaimed = record mapped_running { pod = missing; claim = none }

abbrev with_finalizer : List String
with_finalizer = userdata_reclaim_finalizer ∷ []

mapped-run : reconcile_userdata_mapping answers cluster "alice" running ≡ (done tt, mapped_running)
unfolding desktop_run
mapped-run = refl

-- Two rounds wait, for the pod and for the claim, and the third ends.
finalize-run :
    finalize answers "alice" cluster 4 with_finalizer mapped_running
    ≡ some (done tt, ([], reclaimed))
unfolding desktop_run
finalize-run = refl

contains : slice_contains with_finalizer userdata_reclaim_finalizer ≡ true
unfolding desktop_run
contains = refl

last_round :
    run_finalizers answers "alice" cluster with_finalizer reclaimed ≡ (done tt, ([], reclaimed))
unfolding desktop_run
last_round = refl

run_finalizers-Reclaimed_example : Reclaimed "alice" reclaimed
run_finalizers-Reclaimed_example =
    run_finalizers-Reclaimed answers "alice" cluster "" with_finalizer [] reclaimed reclaimed refl
      contains last_round

finalize-ends_example :
    (k' : Kube) × (finalize answers "alice" cluster 4 with_finalizer running
      ≡ some (done tt, (string_slice_remove with_finalizer userdata_reclaim_finalizer, k')))
    × Reclaimed "alice" k'
finalize-ends_example =
    finalize-ends answers "alice" answers-IsUp cluster "" refl with_finalizer contains running

abbrev three_rounds : List Answers
three_rounds = answers ∷ answers ∷ answers ∷ []

claim_left : (rounds cluster "alice" three_rounds with_finalizer mapped_running).claim ≡ none
unfolding desktop_run
claim_left = refl

abbrev again_running : Kube
again_running = record reclaimed { claim = some bound_claim }

made_again :
    reconcile_volumes answers cluster "alice" ""
      (rounds cluster "alice" three_rounds with_finalizer mapped_running)
    ≡ (done tt, again_running)
unfolding desktop_run
made_again = refl

same_volume_example :
    again_running.claim
    ≡ some (record { volume_name = bound_claim.volume_name; owned = true; terminating = false })
same_volume_example =
    same_volume cluster "alice" answers answers three_rounds "" bound_claim with_finalizer running
      mapped_running again_running refl mapped-run claim_left made_again
