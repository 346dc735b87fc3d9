-- ===== src/Desktop/Reclaim.antt =====
-- volume_reclaim.go of pkg/resources/desktop, and the finalizers of reconciler.go.
use webmesh_vdi.Prelude.{
  ℕ, zero, suc, String, Bool, true, false, not, Option, none, some, List, [], ◌∷◌, ◌++◌,
  if◌then◌else◌,
}
use text.Mathlib.Text.{◌==◌}
use webmesh_vdi.Desktop.Keyed.{lookup_key}
use webmesh_vdi.Desktop.Types.{
  Volume, VolumeClaim, Presence, missing, present, terminating_pod, Kube, ClusterConfig, Answers,
  ActionResult, done, not_found, api_error, requeue, Action, then_run, ◌>>=◌, return, fail,
}
use webmesh_vdi.Desktop.Volumes.{free_pv, get_pvc_for_instance, get_pv, get_vol_map_for_cluster}

abbrev pub userdata_reclaim_finalizer : String
userdata_reclaim_finalizer = "kvdi.io/userdata-reclaim"

-- StringSliceContains and StringSliceRemove of pkg/util/common/util.go.
unfoldable pub slice_contains : List String → String → Bool
slice_contains [] s = false
slice_contains (x ∷ xs) s = if x == s then true else slice_contains xs s

unfoldable pub string_slice_remove : List String → String → List String
string_slice_remove [] s = []
string_slice_remove (x ∷ xs) s =
    if not (x == s) then x ∷ string_slice_remove xs s else string_slice_remove xs s

module _ (a : Answers) (user : String) where
  -- A claim or a pod that is asked to go away is still there for a while.
  unfoldable pub remove_pod : Action Unit
  remove_pod k =
      if a.delete_pod_ok then (requeue 3, record k { pod = terminating_pod }) else (api_error, k)

  unfoldable pub after_pod : Presence → Action Unit
  after_pod missing = return tt
  after_pod present = remove_pod
  after_pod terminating_pod = remove_pod

  unfoldable pub pod_gone : Action Unit
  unfolding after_pod
  pod_gone k = if a.get_pod_ok then after_pod k.pod k else (api_error, k)

  -- An error of the Delete is logged alone.
  unfoldable pub remove_claim : VolumeClaim → Action Unit
  remove_claim claim k = (
    requeue 5,
    if a.delete_claim_ok
        then record k { claim = some (record claim { terminating = true }) }
        else k,
  )

  unfoldable pub after_claim : ActionResult VolumeClaim × Kube → ActionResult Unit × Kube
  unfolding remove_claim
  after_claim (done claim, k) = remove_claim claim k
  after_claim (not_found, k) = (done tt, k)
  after_claim (api_error, k) = (api_error, k)
  after_claim (requeue n, k) = (requeue n, k)

  unfoldable pub claim_gone : Action Unit
  unfolding after_claim
  claim_gone k = after_claim (get_pvc_for_instance a k)

  unfoldable pub after_free : Bool → Action Unit
  after_free true = fail (requeue 5)
  after_free false = return tt

  unfoldable pub after_volume : String → ActionResult Volume × Kube → ActionResult Unit × Kube
  unfolding after_free then_run
  after_volume name (done v, k) = then_run (free_pv a name v k) after_free
  after_volume name (not_found, k) = (done tt, k)
  after_volume name (api_error, k) = (api_error, k)
  after_volume name (requeue n, k) = (requeue n, k)

  unfoldable pub volume_freed : String → Action Unit
  unfolding after_volume
  volume_freed name k = after_volume name (get_pv a name k)

  -- What is done for the user's entry in the map.
  unfoldable pub reclaim_entry : Option String → Action Unit
  unfolding then_run
  reclaim_entry none = return tt
  reclaim_entry (some name) = do gone ← claim_gone; volume_freed name

  unfoldable pub reclaim_spec : Action Unit
  unfolding then_run
  reclaim_spec = do
    gone ← pod_gone
    entries ← get_vol_map_for_cluster a
    reclaim_entry (lookup_key user entries)

  -- reclaimVolumes
  unfoldable pub reclaim_volumes : ClusterConfig → Action Unit
  unfolding reclaim_spec
  reclaim_volumes cluster k =
      if a.get_cluster_ok
      then elim cluster.userdata_spec [ none ↦ (done tt, k) | some volume ↦ reclaim_spec k ]
      else (api_error, k)

  -- The finalizers of the session, beside the cluster.
  unfoldable pub after_reclaim :
      List String → ActionResult Unit × Kube → ActionResult Unit × (List String × Kube)
  after_reclaim fs (done u, k) =
      if a.update_session_ok
      then (done tt, (string_slice_remove fs userdata_reclaim_finalizer, k))
      else (api_error, (fs, k))
  after_reclaim fs (not_found, k) = (not_found, (fs, k))
  after_reclaim fs (api_error, k) = (api_error, (fs, k))
  after_reclaim fs (requeue n, k) = (requeue n, (fs, k))

  -- runFinalizers
  unfoldable pub run_finalizers :
      ClusterConfig → List String → Kube → ActionResult Unit × (List String × Kube)
  unfolding after_reclaim
  run_finalizers cluster fs k =
      if slice_contains fs userdata_reclaim_finalizer
      then after_reclaim fs (reclaim_volumes cluster k)
      else (done tt, (fs, k))

  -- ensureFinalizers: the finalizers of the session that is stored.
  unfoldable pub ensure_finalizers : List String → ActionResult Unit × List String
  ensure_finalizers fs =
      if not (slice_contains fs userdata_reclaim_finalizer)
      then (if a.update_session_ok
          then (
            if a.get_session_ok then done tt else api_error,
            fs ++ userdata_reclaim_finalizer ∷ [],
          )
          else (api_error, fs))
      else (done tt, fs)

-- What becomes of objects whose deletion was asked for.
unfoldable pub settled_pod : Presence → Presence
settled_pod missing = missing
settled_pod present = present
settled_pod terminating_pod = missing

unfoldable pub settled_claim : Option VolumeClaim → Option VolumeClaim
settled_claim none = none
settled_claim (some claim) = if claim.terminating then none else some claim

unfoldable pub settled : Kube → Kube
settled k = record k { pod = settled_pod k.pod; claim = settled_claim k.claim }

-- The controller, which calls again on request. `none` when the fuel runs out.
module _ (a : Answers) (user : String) (cluster : ClusterConfig) where
  unfoldable pub again :
      ActionResult Unit × (List String × Kube)
      → (List String → Kube → Option (ActionResult Unit × (List String × Kube)))
      → Option (ActionResult Unit × (List String × Kube))
  again (requeue n, (fs, k)) rest = rest fs (settled k)
  again (done u, (fs, k)) rest = some (done u, (fs, k))
  again (not_found, (fs, k)) rest = some (not_found, (fs, k))
  again (api_error, (fs, k)) rest = some (api_error, (fs, k))

  unfoldable pub finalize :
      ℕ → List String → Kube → Option (ActionResult Unit × (List String × Kube))
  unfolding again
  finalize zero fs k = none
  finalize (suc fuel) fs k = again (run_finalizers a user cluster fs k) (finalize fuel)
