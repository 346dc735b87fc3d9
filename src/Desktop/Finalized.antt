-- ===== src/Desktop/Finalized.antt =====
-- The finalizer of a session goes, where the API server answers and what is deleted goes away.
use webmesh_vdi.Prelude.{
  ◌≡◌, refl, sym, ◌∙◌, ap, inl, inr, ℕ, zero, suc, String, true, false, not, ◌||◌, none, some, List,
  [], Bool-cases, Option-cases,
}
use webmesh_vdi.Desktop.Keyed.{lookup_key, put_key, lookup-put_key}
use webmesh_vdi.Desktop.Types.{
  Volume, VolumeClaim, Presence, missing, present, terminating_pod, Kube, ClusterConfig, Answers,
  ActionResult, done, not_found, api_error, requeue, then_run,
}
use webmesh_vdi.Desktop.Volumes.{
  is_retain, is_claimed, free_volume, free_pv, get_pvc_for_instance, get_pv, create_vol_map,
  get_vol_map_for_cluster,
}
use webmesh_vdi.Desktop.Freed.{Reclaimed, run_finalizers-Reclaimed}
use webmesh_vdi.Desktop.Reclaim.{
  userdata_reclaim_finalizer, slice_contains, string_slice_remove, after_pod, remove_pod, pod_gone,
  remove_claim, after_claim, claim_gone, after_free, after_volume, volume_freed, reclaim_entry,
  reclaim_spec, reclaim_volumes, after_reclaim, run_finalizers, settled_pod, settled_claim, settled,
  finalize, again,
}

-- The API server answers the calls of the finalizers.
pub record IsUp (a : Answers) : Type 0 where
  pub cluster_answered : a.get_cluster_ok ≡ true
  pub pod_answered : a.get_pod_ok ≡ true
  pub pod_deleted : a.delete_pod_ok ≡ true
  pub map_answered : a.get_map_ok ≡ true
  pub map_created : a.create_map_ok ≡ true
  pub map_read_back : a.get_new_map_ok ≡ true
  pub claim_answered : a.get_claim_ok ≡ true
  pub claim_deleted : a.delete_claim_ok ≡ true
  pub volume_answered : a.get_volume_ok ≡ true
  pub volume_updated : a.update_volume_ok ≡ true
  pub session_updated : a.update_session_ok ≡ true

module _ (a : Answers) (user : String) (up : IsUp a) where
  spec_present :
      (k : Kube)
      → k.pod ≡ present
      → reclaim_spec a user k ≡ (requeue 3, record k { pod = terminating_pod })
  unfolding reclaim_spec then_run pod_gone after_pod remove_pod
  spec_present k p = simp (up.pod_answered, p, up.pod_deleted) refl

  spec_terminating :
      (k : Kube)
      → k.pod ≡ terminating_pod
      → reclaim_spec a user k ≡ (requeue 3, record k { pod = terminating_pod })
  unfolding reclaim_spec then_run pod_gone after_pod remove_pod
  spec_terminating k p = simp (up.pod_answered, p, up.pod_deleted) refl

  spec_mapless :
      (k : Kube)
      → k.pod ≡ missing
      → k.volume_map ≡ none
      → reclaim_spec a user k ≡ (done tt, record k { volume_map = some [] })
  unfolding reclaim_spec then_run pod_gone after_pod get_vol_map_for_cluster create_vol_map
      reclaim_entry lookup_key
  spec_mapless k p m =
      simp (up.pod_answered, p, up.map_answered, m, up.map_created, up.map_read_back) refl

  spec_mapped :
      (k : Kube) (entries : List (String × String))
      → k.pod ≡ missing
      → k.volume_map ≡ some entries
      → reclaim_spec a user k ≡ reclaim_entry a user (lookup_key user entries) k
  unfolding reclaim_spec then_run pod_gone after_pod get_vol_map_for_cluster
  spec_mapped k entries p m = simp (up.pod_answered, p, up.map_answered, m) refl

  entry_claimed :
      (k : Kube) (name : String) (claim : VolumeClaim)
      → k.claim ≡ some claim
      → reclaim_entry a user (some name) k
        ≡ (requeue 5, record k { claim = some (record claim { terminating = true }) })
  unfolding reclaim_entry then_run claim_gone after_claim remove_claim get_pvc_for_instance
  entry_claimed k name claim c = simp (up.claim_answered, c, up.claim_deleted) refl

  entry_unclaimed :
      (k : Kube) (name : String)
      → k.claim ≡ none
      → reclaim_entry a user (some name) k ≡ volume_freed a user name k
  unfolding reclaim_entry then_run claim_gone after_claim get_pvc_for_instance
  entry_unclaimed k name c = simp (up.claim_answered, c) refl

  freed_missing :
      (k : Kube) (name : String)
      → lookup_key name k.volumes ≡ none
      → volume_freed a user name k ≡ (done tt, k)
  unfolding volume_freed after_volume get_pv
  freed_missing k name v = simp (up.volume_answered, v) refl

  freed_free :
      (k : Kube) (name : String) (x : Volume)
      → lookup_key name k.volumes ≡ some x
      → (not (is_retain x.policy) || is_claimed x) ≡ false
      → volume_freed a user name k ≡ (done tt, k)
  unfolding volume_freed after_volume get_pv free_pv then_run after_free
  freed_free k name x v f = simp (up.volume_answered, v, f) refl

  freed_busy :
      (k : Kube) (name : String) (x : Volume)
      → lookup_key name k.volumes ≡ some x
      → (not (is_retain x.policy) || is_claimed x) ≡ true
      → volume_freed a user name k
        ≡ (requeue 5, record k { volumes = put_key name free_volume k.volumes })
  unfolding volume_freed after_volume get_pv free_pv then_run after_free
  freed_busy k name x v f = simp (up.volume_answered, v, f, up.volume_updated) refl

  module _ (cluster : ClusterConfig) (spec_volume : String)
      (spec : cluster.userdata_spec ≡ some spec_volume) (fs : List String)
      (has : slice_contains fs userdata_reclaim_finalizer ≡ true) where
    -- The rounds end without an error, and with the finalizer removed.
    Ends : ℕ → Kube → Type 0
    Ends fuel k =
        (k' : Kube) × (finalize a user cluster fuel fs k
          ≡ some (done tt, (string_slice_remove fs userdata_reclaim_finalizer, k')))

    run_spec :
        (k : Kube)
        → run_finalizers a user cluster fs k ≡ after_reclaim a user fs (reclaim_spec a user k)
    unfolding run_finalizers reclaim_volumes
    run_spec k = simp (has, up.cluster_answered, spec) refl

    Ends-done : (fuel : ℕ) (k k' : Kube) → reclaim_spec a user k ≡ (done tt, k') → Ends (suc fuel) k
    unfolding Ends finalize again after_reclaim
    Ends-done fuel k k' h = (k', rw (run_spec k, h, after_reclaim) (simp up.session_updated refl))

    Ends-requeue :
        (fuel n : ℕ) (k k' : Kube)
        → reclaim_spec a user k ≡ (requeue n, k')
        → Ends fuel (settled k')
        → Ends (suc fuel) k
    unfolding Ends finalize again after_reclaim
    Ends-requeue fuel n k k' h (k'', e) = (k'', rw (run_spec k, h, after_reclaim) e)

    reclaim_unclaimed :
        (fuel : ℕ) (k : Kube) (entries : List (String × String)) (name : String)
        → k.pod ≡ missing
        → k.claim ≡ none
        → k.volume_map ≡ some entries
        → lookup_key user entries ≡ some name
        → reclaim_spec a user k ≡ volume_freed a user name k
    reclaim_unclaimed fuel k entries name p c m l =
        spec_mapped k entries p m ∙ (rw l (entry_unclaimed k name c))

    Ends-free :
        (fuel : ℕ) (k : Kube) (entries : List (String × String)) (name : String)
        → k.pod ≡ missing
        → k.claim ≡ none
        → k.volume_map ≡ some entries
        → lookup_key user entries ≡ some name
        → lookup_key name k.volumes ≡ some free_volume
        → Ends (suc fuel) k
    Ends-free fuel k entries name p c m l v = Ends-done fuel k k (
        reclaim_unclaimed fuel k entries name p c m l
        ∙ freed_free k name free_volume v (unfold is_retain is_claimed in refl))

    Ends-claimless :
        (fuel : ℕ) (k : Kube) (entries : List (String × String)) (name : String)
        → k.pod ≡ missing
        → k.claim ≡ none
        → k.volume_map ≡ some entries
        → lookup_key user entries ≡ some name
        → Ends (suc (suc fuel)) k
    unfolding settled settled_pod settled_claim
    Ends-claimless fuel k entries name p c m l =
        let direct = reclaim_unclaimed fuel k entries name p c m l in
        elim (Option-cases (lookup_key name k.volumes)) [
          | inl v ↦ Ends-done (suc fuel) k k (direct ∙ freed_missing k name v)
          | inr (x, v) ↦ elim (Bool-cases (not (is_retain x.policy) || is_claimed x)) [
            | inr f ↦ Ends-done (suc fuel) k k (direct ∙ freed_free k name x v f)
            | inl f ↦
                Ends-requeue (suc fuel) 5 k
                  (record k { volumes = put_key name free_volume k.volumes })
                  (direct ∙ freed_busy k name x v f)
                  (Ends-free fuel
                    (settled (record k { volumes = put_key name free_volume k.volumes })) entries
                    name (rw p refl) (rw c refl) m l (lookup-put_key name free_volume k.volumes))
          ]
        ]

    Ends-podless : (fuel : ℕ) (k : Kube) → k.pod ≡ missing → Ends (suc (suc (suc fuel))) k
    unfolding settled settled_pod settled_claim reclaim_entry
    Ends-podless fuel k p = elim (Option-cases k.volume_map) [
      | inl m ↦
          Ends-done (suc (suc fuel)) k (record k { volume_map = some [] }) (spec_mapless k p m)
      | inr (entries, m) ↦ elim (Option-cases (lookup_key user entries)) [
        | inl l ↦ Ends-done (suc (suc fuel)) k k (spec_mapped k entries p m ∙ (rw l refl))
        | inr (name, l) ↦ elim (Option-cases k.claim) [
          | inl c ↦ Ends-claimless (suc fuel) k entries name p c m l
          | inr (claim, c) ↦
              let k' : Kube = record k { claim = some (record claim { terminating = true }) } in
              Ends-requeue (suc (suc fuel)) 5 k k'
                (spec_mapped k entries p m ∙ (rw l (entry_claimed k name claim c)))
                (Ends-claimless fuel (settled k') entries name (rw p refl) refl m l)
        ]
      ]
    ]

    Ends-any : (p : Presence) (k : Kube) → k.pod ≡ p → Ends 4 k
    unfolding settled settled_pod
    Ends-any missing k p = Ends-podless 1 k p
    Ends-any present k p =
        Ends-requeue 3 3 k (record k { pod = terminating_pod }) (spec_present k p)
          (Ends-podless 0 (settled (record k { pod = terminating_pod })) refl)
    Ends-any terminating_pod k p =
        Ends-requeue 3 3 k (record k { pod = terminating_pod }) (spec_terminating k p)
          (Ends-podless 0 (settled (record k { pod = terminating_pod })) refl)

    requeue_keeps :
        (out : ActionResult Unit × Kube) (n : ℕ) (fs1 : List String) (k1 : Kube)
        → after_reclaim a user fs out ≡ (requeue n, (fs1, k1))
        → fs1 ≡ fs
    unfolding after_reclaim
    requeue_keeps (done u, k) n fs1 k1 h = absurd (cc (simp up.session_updated at h))
    requeue_keeps (not_found, k) n fs1 k1 h = absurd (cc h)
    requeue_keeps (api_error, k) n fs1 k1 h = absurd (cc h)
    requeue_keeps (requeue m, k) n fs1 k1 h = cc h

    last_round :
        (fuel : ℕ) (out : ActionResult Unit × (List String × Kube)) (k k' : Kube)
        (fs' : List String)
        → ((k1 k2 : Kube) (fs1 : List String)
            → finalize a user cluster fuel fs k1 ≡ some (done tt, (fs1, k2))
            → Reclaimed user k2)
        → run_finalizers a user cluster fs k ≡ out
        → again a user cluster out (finalize a user cluster fuel) ≡ some (done tt, (fs', k'))
        → Reclaimed user k'
    unfolding again
    last_round fuel (done u, (fs1, k1)) k k' fs' rest r h =
        run_finalizers-Reclaimed a user cluster spec_volume fs fs' k k' spec has (r ∙ (cc h))
    last_round fuel (not_found, (fs1, k1)) k k' fs' rest r h = absurd (cc h)
    last_round fuel (api_error, (fs1, k1)) k k' fs' rest r h = absurd (cc h)
    last_round fuel (requeue n, (fs1, k1)) k k' fs' rest r h =
        let same = requeue_keeps (reclaim_spec a user k) n fs1 k1 (sym (run_spec k) ∙ r) in
        rest (settled k1) k' fs'
          (ap (λ (q : List String). finalize a user cluster fuel q (settled k1)) (sym same) ∙ h)

    -- What the last round leaves, whichever it is.
    finalize-Reclaimed :
        (fuel : ℕ) (k k' : Kube) (fs' : List String)
        → finalize a user cluster fuel fs k ≡ some (done tt, (fs', k'))
        → Reclaimed user k'
    unfolding finalize
    finalize-Reclaimed zero k k' fs' h = absurd (cc h)
    finalize-Reclaimed (suc fuel) k k' fs' h =
        last_round fuel (run_finalizers a user cluster fs k) k k' fs' (finalize-Reclaimed fuel) refl
          h

    -- In a cluster with a userdataSpec, where the API server answers and what was asked to be deleted
    -- is gone before the next round, four rounds of runFinalizers are enough for every session that
    -- has the finalizer: a round ends without an error, the finalizer is removed, the session's pod is
    -- gone and, if the map has a volume for the user, the user's claim is gone and the volume is gone
    -- too or is free.
    pub finalize-ends :
        (k : Kube)
        → (k' : Kube) × (finalize a user cluster 4 fs k
            ≡ some (done tt, (string_slice_remove fs userdata_reclaim_finalizer, k')))
          × Reclaimed user k'
    unfolding Ends
    finalize-ends k =
        let (k', e) = Ends-any k.pod k refl in
        (k', e, finalize-Reclaimed 4 k k' (string_slice_remove fs userdata_reclaim_finalizer) e)
