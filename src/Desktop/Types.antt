-- ===== src/Desktop/Types.antt =====
-- What the functions of pkg/resources/desktop see of the cluster, for one session and its user.
use webmesh_vdi.Prelude.{ℕ, String, Bool, Option, List}

pub data ReclaimPolicy : Type 0 where
  retain delete recycle : ReclaimPolicy

-- A persistent volume, with the claim that it is bound to.
pub record Volume : Type 0 where
  pub policy : ReclaimPolicy
  pub claim_ref : Option String

-- A persistent volume claim: its volume, the empty name where none is provisioned, whether the
-- session owns it, and whether its deletion was asked for.
pub record VolumeClaim : Type 0 where
  pub volume_name : String
  pub owned : Bool
  pub terminating : Bool

pub data Presence : Type 0 where
  missing present terminating_pod : Presence

-- The pod of the session, the claim of its user in its namespace, the volumes by name, and the data
-- of the config map that maps users to volumes: an empty map is read back as a nil one.
pub record Kube : Type 0 where
  pub pod : Presence
  pub claim : Option VolumeClaim
  pub volumes : List (String × Volume)
  pub volume_map : Option (List (String × String))

-- The userdataSpec of the VDICluster, where it is set: the volume name in it; and RetainPVCs.
pub record ClusterConfig : Type 0 where
  pub userdata_spec : Option String
  pub retain_pvcs : Bool

-- Which calls of the client the API server answers, a missing object included.
pub record Answers : Type 0 where
  pub get_cluster_ok : Bool
  pub get_pod_ok : Bool
  pub delete_pod_ok : Bool
  pub get_map_ok : Bool
  pub create_map_ok : Bool
  pub get_new_map_ok : Bool
  pub update_map_ok : Bool
  pub get_claim_ok : Bool
  pub create_claim_ok : Bool
  pub delete_claim_ok : Bool
  pub get_volume_ok : Bool
  pub update_volume_ok : Bool
  pub update_session_ok : Bool
  pub get_session_ok : Bool

-- How a function ends: with its result, an error that an object is missing, any other error, or the
-- request to be called again after some seconds.
pub data ActionResult (A : Type 0) : Type 0 where
  done : A → ActionResult A
  not_found api_error : ActionResult A
  requeue : ℕ → ActionResult A

-- A function of the reconciler, from the state of the cluster to the next one.
abbrev pub Action : Type 0 → Type 0
Action A = Kube → ActionResult A × Kube

unfoldable pub then_run :
    {A C : Type 0} → ActionResult A × Kube → (A → Action C) → ActionResult C × Kube
then_run (done a, k) f = f a k
then_run (not_found, k) f = (not_found, k)
then_run (api_error, k) f = (api_error, k)
then_run (requeue n, k) f = (requeue n, k)

infixl 20 ◌>>=◌
abbrev pub ◌>>=◌ : {A C : Type 0} → Action A → (A → Action C) → Action C
(m >>= f) k = then_run (m k) f

abbrev pub return : {A : Type 0} → A → Action A
return a k = (done a, k)

abbrev pub fail : {A : Type 0} → ActionResult A → Action A
fail r k = (r, k)
