-- ===== src/Desktop/Kept.antt =====
-- The finalizers of a session keep the user's volume and its entry in the map.
use webmesh_vdi.Prelude.{
  sym, ◌∙◌, ap, inl, inr, String, Bool, true, false, not, ◌||◌, Option, none, some, List,
  Bool-cases, Option-cases,
}
use webmesh_vdi.Desktop.Keyed.{lookup_key, lookup-put_key_kept}
use webmesh_vdi.Desktop.Types.{
  Volume, Presence, missing, present, terminating_pod, Kube, ClusterConfig, Answers, ActionResult,
  done, not_found, api_error, requeue, then_run,
}
use webmesh_vdi.Desktop.Volumes.{
  is_retain, is_claimed, free_volume, free_pv, get_pvc_for_instance, get_pv, create_vol_map,
  get_vol_map_for_cluster,
}
use webmesh_vdi.Desktop.Reclaim.{
  userdata_reclaim_finalizer, slice_contains, after_pod, remove_pod, pod_gone, remove_claim,
  after_claim, claim_gone, after_free, after_volume, volume_freed, reclaim_entry, reclaim_spec,
  reclaim_volumes, after_reclaim, run_finalizers,
}
use webmesh_vdi.Desktop.Freed.{entry_of}
use webmesh_vdi.Desktop.Mapped.{Keeps}

-- Nothing that the finalizers do loses the user's volume or its entry.
module _ (a : Answers) (user : String) (name : String) where
  then_run-Keeps :
      {A C : Type 0} (out : ActionResult A × Kube) (f : A → Kube → ActionResult C × Kube)
      → Keeps user name out.1
      → ((b : A) (k : Kube) → Keeps user name k → Keeps user name (f b k).1)
      → Keeps user name (then_run out f).1
  unfolding then_run
  then_run-Keeps (done b, k) f h g = g b k h
  then_run-Keeps (not_found, k) f h g = h
  then_run-Keeps (api_error, k) f h g = h
  then_run-Keeps (requeue n, k) f h g = h

  free_pv-Keeps :
      (other : String) (v : Volume) (k : Kube)
      → Keeps user name k
      → Keeps user name (free_pv a other v k).1
  unfolding free_pv
  free_pv-Keeps other v k h = elim (Bool-cases (not (is_retain v.policy) || is_claimed v)) [
    | inl q ↦ elim (Bool-cases a.update_volume_ok) [
      | inl z ↦
          let (w, e) = lookup-put_key_kept other name free_volume h.volume k.volumes h.there in
          simp (q, z) (record { entry = h.entry; volume = w; there = e })
      | inr z ↦ simp (q, z) h
    ]
    | inr q ↦ simp q h
  ]

  after_free-Keeps :
      (b : Bool) (k : Kube) → Keeps user name k → Keeps user name (after_free a user b k).1
  unfolding after_free
  after_free-Keeps true k h = h
  after_free-Keeps false k h = h

  kept_by_get :
      (other : String) (k : Kube) → Keeps user name k → Keeps user name (get_pv a other k).1
  unfolding get_pv
  kept_by_get other k h = elim (Bool-cases a.get_volume_ok) [ inl q ↦ simp q h | inr q ↦ simp q h ]

  after_volume-Keeps :
      (other : String) (out : ActionResult Volume × Kube)
      → Keeps user name out.1
      → Keeps user name (after_volume a user other out).1
  unfolding after_volume after_free
  after_volume-Keeps other (done v, k) h =
      then_run-Keeps (free_pv a other v k) _ (free_pv-Keeps other v k h) after_free-Keeps
  after_volume-Keeps other (not_found, k) h = h
  after_volume-Keeps other (api_error, k) h = h
  after_volume-Keeps other (requeue n, k) h = h

  volume_freed-Keeps :
      (other : String) (k : Kube)
      → Keeps user name k
      → Keeps user name (volume_freed a user other k).1
  unfolding volume_freed get_pv
  volume_freed-Keeps other k h = after_volume-Keeps other (get_pv a other k) (kept_by_get other k h)

  claim_gone-Keeps : (k : Kube) → Keeps user name k → Keeps user name (claim_gone a user k).1
  unfolding claim_gone after_claim remove_claim get_pvc_for_instance
  claim_gone-Keeps k h = elim (Bool-cases a.get_claim_ok) [
    | inl q ↦ elim (Option-cases k.claim) [
      | inl c ↦ simp (q, c) h
      | inr (claim, c) ↦ elim (Bool-cases a.delete_claim_ok) [
        | inl z ↦ simp (q, c, z) (record { entry = h.entry; volume = h.volume; there = h.there })
        | inr z ↦ simp (q, c, z) h
      ]
    ]
    | inr q ↦ simp q h
  ]

  remove_pod-Keeps : (k : Kube) → Keeps user name k → Keeps user name (remove_pod a user k).1
  unfolding remove_pod
  remove_pod-Keeps k h = elim (Bool-cases a.delete_pod_ok) [
    | inl q ↦ simp q (record { entry = h.entry; volume = h.volume; there = h.there })
    | inr q ↦ simp q h
  ]

  after_pod-Keeps :
      (p : Presence) (k : Kube) → Keeps user name k → Keeps user name (after_pod a user p k).1
  unfolding after_pod
  after_pod-Keeps missing k h = h
  after_pod-Keeps present k h = remove_pod-Keeps k h
  after_pod-Keeps terminating_pod k h = remove_pod-Keeps k h

  pod_gone-Keeps : (k : Kube) → Keeps user name k → Keeps user name (pod_gone a user k).1
  unfolding pod_gone
  pod_gone-Keeps k h = elim (Bool-cases a.get_pod_ok) [
    | inl q ↦ simp q (after_pod-Keeps k.pod k h)
    | inr q ↦ simp q h
  ]

  pub get_map-Keeps :
      (k : Kube) → Keeps user name k → Keeps user name (get_vol_map_for_cluster a k).1
  unfolding get_vol_map_for_cluster create_vol_map
  get_map-Keeps k h = elim (Bool-cases a.get_map_ok) [
    | inl q ↦ elim (Option-cases k.volume_map) [
      | inl m ↦ absurd (cc (ap (entry_of user) (sym m) ∙ h.entry))
      | inr (entries, m) ↦ simp (q, m) h
    ]
    | inr q ↦ simp q h
  ]

  reclaim_entry-Keeps :
      (o : Option String) (k : Kube)
      → Keeps user name k
      → Keeps user name (reclaim_entry a user o k).1
  unfolding reclaim_entry
  reclaim_entry-Keeps none k h = h
  reclaim_entry-Keeps (some other) k h =
      then_run-Keeps (claim_gone a user k) _ (claim_gone-Keeps k h)
        (λ b k1 h1. volume_freed-Keeps other k1 h1)

  reclaim_spec-Keeps : (k : Kube) → Keeps user name k → Keeps user name (reclaim_spec a user k).1
  unfolding reclaim_spec
  reclaim_spec-Keeps k h = then_run-Keeps (pod_gone a user k) _ (pod_gone-Keeps k h) (λ b k1 h1.
      then_run-Keeps (get_vol_map_for_cluster a k1) _ (get_map-Keeps k1 h1)
        (λ entries k2 h2. reclaim_entry-Keeps (lookup_key user entries) k2 h2))

  reclaim_volumes-Keeps :
      (cluster : ClusterConfig) (k : Kube)
      → Keeps user name k
      → Keeps user name (reclaim_volumes a user cluster k).1
  unfolding reclaim_volumes
  reclaim_volumes-Keeps cluster k h = elim (Bool-cases a.get_cluster_ok) [
    | inl q ↦ elim (Option-cases cluster.userdata_spec) [
      | inl c ↦ simp (q, c) h
      | inr (volume, c) ↦ simp (q, c) (reclaim_spec-Keeps k h)
    ]
    | inr q ↦ simp q h
  ]

  after_reclaim-Keeps :
      (fs : List String) (out : ActionResult Unit × Kube)
      → Keeps user name out.1
      → Keeps user name (after_reclaim a user fs out).1.1
  unfolding after_reclaim
  after_reclaim-Keeps fs (done u, k) h = elim (Bool-cases a.update_session_ok) [
    | inl q ↦ simp q h
    | inr q ↦ simp q h
  ]
  after_reclaim-Keeps fs (not_found, k) h = h
  after_reclaim-Keeps fs (api_error, k) h = h
  after_reclaim-Keeps fs (requeue n, k) h = h

  pub run_finalizers-Keeps :
      (cluster : ClusterConfig) (fs : List String) (k : Kube)
      → Keeps user name k
      → Keeps user name (run_finalizers a user cluster fs k).1.1
  unfolding run_finalizers
  run_finalizers-Keeps cluster fs k h =
      elim (Bool-cases (slice_contains fs userdata_reclaim_finalizer)) [
        | inl q ↦ simp q (
            after_reclaim-Keeps fs (reclaim_volumes a user cluster k)
              (reclaim_volumes-Keeps cluster k h))
        | inr q ↦ simp q h
      ]
