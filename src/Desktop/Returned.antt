-- ===== src/Desktop/Returned.antt =====
-- A user gets the same volume back: from reconcileUserdataMapping to the next reconcileVolumes.
use webmesh_vdi.Prelude.{
  ◌≡◌, refl, sym, ◌∙◌, ap, String, false, not, none, some, List, [], ◌∷◌, arith,
}
use mathlib.Core.Path.{subst}
use text.Mathlib.Text.{◌==◌}
use webmesh_vdi.Desktop.Keyed.{lookup_key}
use webmesh_vdi.Desktop.Types.{
  Volume, VolumeClaim, Kube, ClusterConfig, Answers, ActionResult, done,
}
use webmesh_vdi.Desktop.Volumes.{
  get_vol_map_for_cluster, existing_volume, new_pvc_for_user, persistent_volume_claim,
  reconcile_volumes, reconcile_userdata_mapping,
}
use webmesh_vdi.Desktop.Reclaim.{run_finalizers, settled}
use webmesh_vdi.Desktop.Freed.{entry_of, then_run-done, vol_map-done}
use webmesh_vdi.Desktop.Mapped.{Keeps, mapping-Keeps}
use webmesh_vdi.Desktop.Kept.{get_map-Keeps, run_finalizers-Keeps}

-- Rounds of the finalizers, each with its own answers, and what was deleted going in between.
unfoldable pub rounds : ClusterConfig → String → List Answers → List String → Kube → Kube
rounds cluster user [] fs k = k
rounds cluster user (a ∷ as') fs k =
    let (fs', k') = (run_finalizers a user cluster fs k).1 in
    rounds cluster user as' fs' (settled k')

module _ (cluster : ClusterConfig) (user : String) where
  rounds-Keeps :
      (name : String) (as' : List Answers) (fs : List String) (k : Kube)
      → Keeps user name k
      → Keeps user name (rounds cluster user as' fs k)
  unfolding rounds settled
  rounds-Keeps name [] fs k h = h
  rounds-Keeps name (a ∷ as') fs k h =
      let h' = run_finalizers-Keeps a user name cluster fs k h in
      rounds-Keeps name as' (run_finalizers a user cluster fs k).1.0
        (settled (run_finalizers a user cluster fs k).1.1)
        (record { entry = h'.entry; volume = h'.volume; there = h'.there })

  existing-done :
      (a : Answers) (name existing : String) (v : Volume) (k k' : Kube)
      → existing_volume a (some name) k ≡ (done existing, k')
      → lookup_key name k.volumes ≡ some v
      → (k' ≡ k) × (existing ≡ name)
  unfolding existing_volume
  existing-done a name existing v k k' h there = ground arith

  made :
      (a : Answers) (claim : VolumeClaim) (k k' : Kube)
      → persistent_volume_claim a cluster user claim k ≡ (done tt, k')
      → k.claim ≡ none
      → k'.claim ≡ some claim
  unfolding persistent_volume_claim
  made a claim k k' h none_left = ground arith

  named :
      (a : Answers) (spec_volume existing : String) {name : String}
      → existing ≡ name
      → (name == "") ≡ false
      → new_pvc_for_user a cluster user spec_volume existing
        ≡ record { volume_name = name; owned = not cluster.retain_pvcs; terminating = false }
  unfolding new_pvc_for_user
  named a spec_volume existing e n = rw e (simp n refl)

  -- The claim that reconcileVolumes makes for a user whose volume is in the map.
  reconcile-claim :
      (a : Answers) (spec_volume name : String) (k k' : Kube)
      → Keeps user name k
      → k.claim ≡ none
      → (name == "") ≡ false
      → reconcile_volumes a cluster user spec_volume k ≡ (done tt, k')
      → k'.claim
        ≡ some (record { volume_name = name; owned = not cluster.retain_pvcs; terminating = false })
  unfolding reconcile_volumes
  reconcile-claim a spec_volume name k k' keeps c n h =
      let (entries, k1, first, rest) = then_run-done (get_vol_map_for_cluster a k) _ tt k' h in
      let (pod1, claim1, volumes1, map1) = vol_map-done a user k k1 entries first in
      let keeps1 : Keeps user name k1 =
        subst (λ (out : ActionResult (List (String × String)) × Kube). Keeps user name out.1) first
          (get_map-Keeps a user name k keeps) in
      let listed : lookup_key user entries ≡ some name =
        sym (ap (entry_of user) map1) ∙ keeps1.entry in
      let (existing, k2, second, last) =
        then_run-done (existing_volume a (lookup_key user entries) k1) _ tt k' rest in
      let (same2, is_name) =
        existing-done a name existing keeps1.volume k1 k2 (rw listed at second) keeps1.there in
      made a (new_pvc_for_user a cluster user spec_volume existing) k2 k' last
        (ap (λ (q : Kube). q.claim) same2 ∙ claim1 ∙ c)
      ∙ ap some (named a spec_volume existing is_name n)

  -- The rounds of runFinalizers for a session, whatever calls fail in them, take no volume from its
  -- user: if the mapping of the user's claim to its volume was made before them, and the user's
  -- claim is gone after them, then the next claim that reconcileVolumes makes for the user asks for
  -- this volume again. It is owned by the session unless claims are retained. Nobody else changes the
  -- map or the volumes meanwhile.
  pub same_volume :
      (a a' : Answers) (as' : List Answers) (spec_volume : String) (claim : VolumeClaim)
      (fs : List String) (k k1 k3 : Kube)
      → k.claim ≡ some claim
      → reconcile_userdata_mapping a cluster user k ≡ (done tt, k1)
      → (rounds cluster user as' fs k1).claim ≡ none
      → reconcile_volumes a' cluster user spec_volume (rounds cluster user as' fs k1)
        ≡ (done tt, k3)
      → k3.claim
        ≡ some (record {
          volume_name = claim.volume_name;
          owned = not cluster.retain_pvcs;
          terminating = false;
        })
  same_volume a a' as' spec_volume claim fs k k1 k3 c m gone h =
      let (keeps, nonempty) = mapping-Keeps a cluster user k k1 claim c m in
      reconcile-claim a' spec_volume claim.volume_name (rounds cluster user as' fs k1) k3
        (rounds-Keeps claim.volume_name as' fs k1 keeps) gone nonempty h
