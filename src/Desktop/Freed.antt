-- ===== src/Desktop/Freed.antt =====
-- What holds once the finalizer of a session is gone, and that it goes.
use webmesh_vdi.Prelude.{
  ◌≡◌, refl, sym, ◌∙◌, ap, ◌⊎◌, inl, inr, String, true, false, Option, none, some, List, arith,
  Bool-cases,
}
use mathlib.Core.Path.{subst}
use webmesh_vdi.Desktop.Keyed.{lookup_key}
use webmesh_vdi.Desktop.Types.{
  Volume, missing, Kube, ClusterConfig, Answers, ActionResult, done, not_found, api_error, requeue,
  then_run,
}
use webmesh_vdi.Desktop.Volumes.{
  is_retain, is_claimed, free_pv, get_pvc_for_instance, get_pv, create_vol_map,
  get_vol_map_for_cluster,
}
use webmesh_vdi.Desktop.Reclaim.{
  userdata_reclaim_finalizer, slice_contains, after_pod, remove_pod, pod_gone, remove_claim,
  after_claim, claim_gone, after_free, after_volume, volume_freed, reclaim_entry, reclaim_spec,
  reclaim_volumes, after_reclaim, run_finalizers,
}

-- The volume may be claimed anew, and keeps its contents.
abbrev pub IsFree : Volume → Type 0
IsFree v = (is_retain v.policy ≡ true) × (is_claimed v ≡ false)

abbrev FreeIn : String → Kube → Type 0
FreeIn name k =
    (lookup_key name k.volumes ≡ none)
    ⊎ ((v : Volume) × (lookup_key name k.volumes ≡ some v) × IsFree v)

-- No claim of the user is left, and the volume is free or gone.
abbrev pub IsReleased : String → Kube → Type 0
IsReleased name k = (k.claim ≡ none) × FreeIn name k

-- The entry of the user in the map.
abbrev pub entry_of : String → Option (List (String × String)) → Option String
entry_of user none = none
entry_of user (some entries) = lookup_key user entries

abbrev pub mapped : String → Kube → Option String
mapped user k = entry_of user k.volume_map

-- No pod is left; where the user has an entry in the map, its volume is released.
pub record Reclaimed (user : String) (k : Kube) : Type 0 where
  pub no_pod : k.pod ≡ missing
  pub released : (name : String) → mapped user k ≡ some name → IsReleased name k

module _ (a : Answers) (user : String) where
  pod_gone-done : (k k' : Kube) → pod_gone a user k ≡ (done tt, k') → (k' ≡ k) × (k.pod ≡ missing)
  unfolding pod_gone after_pod remove_pod
  pod_gone-done k k' h = ground arith

  pub vol_map-done :
      (k k' : Kube) (entries : List (String × String))
      → get_vol_map_for_cluster a k ≡ (done entries, k')
      → (k'.pod ≡ k.pod)
        × (k'.claim ≡ k.claim)
        × (k'.volumes ≡ k.volumes)
        × (k'.volume_map ≡ some entries)
  unfolding get_vol_map_for_cluster create_vol_map
  vol_map-done k k' entries h = ground arith

  claim_gone-done :
      (k k' : Kube) → claim_gone a user k ≡ (done tt, k') → (k' ≡ k) × (k.claim ≡ none)
  unfolding claim_gone after_claim remove_claim get_pvc_for_instance
  claim_gone-done k k' h = ground arith

  volume_freed-done :
      (name : String) (k k' : Kube)
      → volume_freed a user name k ≡ (done tt, k')
      → (k' ≡ k) × FreeIn name k
  unfolding volume_freed after_volume get_pv free_pv after_free then_run is_retain is_claimed
  volume_freed-done name k k' h = ground arith

-- A chain that ends with a result has a first part that does.
pub then_run-done :
    {A C : Type 0} (m : ActionResult A × Kube) (f : A → Kube → ActionResult C × Kube) (c : C)
    (k' : Kube)
    → then_run m f ≡ (done c, k')
    → (b : A) × (k1 : Kube) × (m ≡ (done b, k1)) × (f b k1 ≡ (done c, k'))
unfolding then_run
then_run-done (done b, k) f c k' h = (b, k, refl, h)
then_run-done (not_found, k) f c k' h = absurd (cc h)
then_run-done (api_error, k) f c k' h = absurd (cc h)
then_run-done (requeue n, k) f c k' h = absurd (cc h)

some-inj : (s t : String) → ◌≡◌ {A = Option String} (some s) (some t) → s ≡ t
some-inj s t h = cc h

module _ (a : Answers) (user : String) where
  reclaim_entry-done :
      (o : Option String) (k k' : Kube)
      → reclaim_entry a user o k ≡ (done tt, k')
      → (k' ≡ k) × ((name : String) → o ≡ some name → IsReleased name k)
  unfolding reclaim_entry
  reclaim_entry-done none k k' h = (cc h, λ name e. absurd (cc e))
  reclaim_entry-done (some volume) k k' h =
      let (gone, k1, first, rest) =
        then_run-done (claim_gone a user k) (λ gone. volume_freed a user volume) tt k' h in
      let (same1, none_left) = claim_gone-done a user k k1 first in
      let (same2, free) = volume_freed-done a user volume k1 k' rest in
      (
        same2 ∙ same1,
        λ name e. (
          none_left,
          subst (λ (n : String). FreeIn n k) (some-inj volume name e)
              (subst (λ (q : Kube). FreeIn volume q) same1 free),
        ),
      )

  reclaim_spec-done : (k k' : Kube) → reclaim_spec a user k ≡ (done tt, k') → Reclaimed user k'
  unfolding reclaim_spec
  reclaim_spec-done k k' h =
      let (gone, k1, first, rest) = then_run-done (pod_gone a user k) _ tt k' h in
      let (same1, no_pod) = pod_gone-done a user k k1 first in
      let (entries, k2, second, last) = then_run-done (get_vol_map_for_cluster a k1) _ tt k' rest in
      let (pod2, claim2, volumes2, map2) = vol_map-done a user k1 k2 entries second in
      let (same3, freed) = reclaim_entry-done (lookup_key user entries) k2 k' last in
      subst (λ (q : Kube). Reclaimed user q) (sym same3)
        (record {
          no_pod = pod2 ∙ ap (λ (q : Kube). q.pod) same1 ∙ no_pod;
          released = λ name e. freed name (sym (ap (entry_of user) map2) ∙ e);
        })

  reclaim_volumes-done :
      (cluster : ClusterConfig) (volume : String) (k k' : Kube)
      → cluster.userdata_spec ≡ some volume
      → reclaim_volumes a user cluster k ≡ (done tt, k')
      → Reclaimed user k'
  unfolding reclaim_volumes
  reclaim_volumes-done cluster volume k k' spec h = elim (Bool-cases a.get_cluster_ok) [
    | inl q ↦ reclaim_spec-done k k' (simp (q, spec) at h)
    | inr q ↦ absurd (cc (simp q at h))
  ]

  after_reclaim-done :
      (fs fs' : List String) (out : ActionResult Unit × Kube) (k' : Kube)
      → after_reclaim a user fs out ≡ (done tt, (fs', k'))
      → out ≡ (done tt, k')
  unfolding after_reclaim
  after_reclaim-done fs fs' (done u, k) k' h = elim (Bool-cases a.update_session_ok) [
    | inl q ↦ cc (simp q at h)
    | inr q ↦ absurd (cc (simp q at h))
  ]
  after_reclaim-done fs fs' (not_found, k) k' h = absurd (cc h)
  after_reclaim-done fs fs' (api_error, k) k' h = absurd (cc h)
  after_reclaim-done fs fs' (requeue n, k) k' h = absurd (cc h)

  -- In a cluster with a userdataSpec, runFinalizers ends without an error or a requeue for a session
  -- with the finalizer only in a state in which the session's pod is gone and, if the map has a volume
  -- for the user, the user's claim is gone and the volume is gone too or is free: it is retained and
  -- bound to no claim. This holds whatever calls fail.
  pub run_finalizers-Reclaimed :
      (cluster : ClusterConfig) (volume : String) (fs fs' : List String) (k k' : Kube)
      → cluster.userdata_spec ≡ some volume
      → slice_contains fs userdata_reclaim_finalizer ≡ true
      → run_finalizers a user cluster fs k ≡ (done tt, (fs', k'))
      → Reclaimed user k'
  unfolding run_finalizers
  run_finalizers-Reclaimed cluster volume fs fs' k k' spec has h =
      reclaim_volumes-done cluster volume k k' spec
        (after_reclaim-done fs fs' (reclaim_volumes a user cluster k) k' (simp has at h))
