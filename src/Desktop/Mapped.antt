-- ===== src/Desktop/Mapped.antt =====
-- The mapping of a user to a volume: what reconcileUserdataMapping of pkg/resources/desktop leaves.
use webmesh_vdi.Prelude.{
  ◌≡◌, refl, sym, ◌∙◌, ap, inl, inr, String, Bool, false, not, ◌||◌, Option, none, some, List,
  arith, Bool-cases, eq_iff,
}
use mathlib.Core.Path.{subst}
use text.Mathlib.Text.{◌==◌}
use webmesh_vdi.Desktop.Keyed.{lookup_key, put_key, lookup-put_key}
use webmesh_vdi.Desktop.Types.{Volume, VolumeClaim, Kube, ClusterConfig, Answers, done}
use webmesh_vdi.Desktop.Volumes.{
  is_retain, is_claimed, free_volume, free_pv, get_pvc_for_instance, get_pv,
  get_vol_map_for_cluster, set_mapping, replace_entry, update_mapping, map_volume, provisioned,
  reconcile_userdata_mapping,
}
use webmesh_vdi.Desktop.Freed.{entry_of, mapped, then_run-done, vol_map-done}

-- The user has a volume in the map, and it exists.
pub record Keeps (user name : String) (k : Kube) : Type 0 where
  pub entry : mapped user k ≡ some name
  pub volume : Volume
  pub there : lookup_key name k.volumes ≡ some volume

module _ (a : Answers) (cluster : ClusterConfig) (user : String) where
  free_pv-there :
      (name : String) (v : Volume) (k k' : Kube) (b : Bool)
      → lookup_key name k.volumes ≡ some v
      → free_pv a name v k ≡ (done b, k')
      → (w : Volume) × (lookup_key name k'.volumes ≡ some w) × (k'.claim ≡ k.claim)
  unfolding free_pv
  free_pv-there name v k k' b h e = elim (Bool-cases (not (is_retain v.policy) || is_claimed v)) [
    | inl q ↦ elim (Bool-cases a.update_volume_ok) [
      | inl z ↦
          let same : record k { volumes = put_key name free_volume k.volumes } ≡ k' =
            cc (simp (q, z) at e) in
          subst
            (λ (x : Kube).
              (w : Volume) × (lookup_key name x.volumes ≡ some w) × (x.claim ≡ k.claim))
            same (free_volume, lookup-put_key name free_volume k.volumes, refl)
      | inr z ↦ absurd (cc (simp (q, z) at e))
    ]
    | inr q ↦
        let same : k ≡ k' = cc (simp q at e) in
        subst
          (λ (x : Kube). (w : Volume) × (lookup_key name x.volumes ≡ some w) × (x.claim ≡ k.claim))
          same (v, h, refl)
  ]

  set_mapping-Keeps :
      (name : String) (entries : List (String × String)) (w : Volume) (k k' : Kube)
      → lookup_key name k.volumes ≡ some w
      → set_mapping a cluster user name entries k ≡ (done tt, k')
      → Keeps user name k'
  unfolding set_mapping
  set_mapping-Keeps name entries w k k' v e = elim (Bool-cases a.update_map_ok) [
    | inl z ↦
        let same : record k { volume_map = some (put_key user name entries) } ≡ k' =
          cc (simp z at e) in
        subst (Keeps user name) same
          (record { entry = lookup-put_key user name entries; volume = w; there = v })
    | inr z ↦ absurd (cc (simp z at e))
  ]

  get_pv-done :
      (name : String) (k k' : Kube) (v : Volume)
      → get_pv a name k ≡ (done v, k')
      → (k' ≡ k) × (lookup_key name k.volumes ≡ some v)
  unfolding get_pv
  get_pv-done name k k' v h = ground arith

  get_pvc-done :
      (k k' : Kube) (claim : VolumeClaim)
      → get_pvc_for_instance a k ≡ (done claim, k')
      → (k' ≡ k) × (k.claim ≡ some claim)
  unfolding get_pvc_for_instance
  get_pvc-done k k' claim h = ground arith

  replace_entry-Keeps :
      (o : Option String) (name : String) (entries : List (String × String)) (w : Volume)
      (k k' : Kube)
      → lookup_key user entries ≡ o
      → k.volume_map ≡ some entries
      → lookup_key name k.volumes ≡ some w
      → replace_entry a cluster user o name entries k ≡ (done tt, k')
      → Keeps user name k'
  unfolding replace_entry
  replace_entry-Keeps none name entries w k k' l m v e = set_mapping-Keeps name entries w k k' v e
  replace_entry-Keeps (some old) name entries w k k' l m v e = elim (Bool-cases (old == name)) [
    | inl q ↦
        let same : k ≡ k' = cc (simp q at e) in
        let equal : old ≡ name = ground (arith, eq_iff old name, q) in
        subst (Keeps user name) same
          (record { entry = ap (entry_of user) m ∙ l ∙ ap some equal; volume = w; there = v })
    | inr q ↦ set_mapping-Keeps name entries w k k' v (simp q at e)
  ]

  map_volume-Keeps :
      (name : String) (k k' : Kube)
      → map_volume a cluster user name k ≡ (done tt, k')
      → Keeps user name k'
  unfolding map_volume update_mapping
  map_volume-Keeps name k k' h =
      let (v, k1, first, rest1) = then_run-done (get_pv a name k) _ tt k' h in
      let (b, k2, second, rest2) = then_run-done (free_pv a name v k1) _ tt k' rest1 in
      let (entries, k3, third, last) = then_run-done (get_vol_map_for_cluster a k2) _ tt k' rest2 in
      let (same1, there1) = get_pv-done name k k1 v first in
      let (w, there2, claim2) =
        free_pv-there name v k1 k2 b
          (subst (λ (x : Kube). lookup_key name x.volumes ≡ some v) (sym same1) there1) second in
      let (pod3, claim3, volumes3, map3) = vol_map-done a user k2 k3 entries third in
      replace_entry-Keeps (lookup_key user entries) name entries w k3 k' refl map3
        (ap (lookup_key name) volumes3 ∙ there2) last

  -- A mapping that is done has a claim with a volume, which the user then has.
  pub mapping-Keeps :
      (k k' : Kube) (claim : VolumeClaim)
      → k.claim ≡ some claim
      → reconcile_userdata_mapping a cluster user k ≡ (done tt, k')
      → Keeps user claim.volume_name k' × ((claim.volume_name == "") ≡ false)
  unfolding reconcile_userdata_mapping provisioned
  mapping-Keeps k k' claim c h =
      let (claim1, k1, first, last) = then_run-done (get_pvc_for_instance a k) _ tt k' h in
      let (same, is) = get_pvc-done k k1 claim1 first in
      let equal : claim ≡ claim1 = cc (sym c ∙ is) in
      elim (Bool-cases (claim.volume_name == "")) [
        | inl q ↦ absurd (cc (simp (sym equal, q) at last))
        | inr q ↦ (map_volume-Keeps claim.volume_name k1 k' (simp (sym equal, q) at last), q)
      ]
