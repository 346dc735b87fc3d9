-- ===== src/Secrets/Store.antt =====
-- The backends of the secrets engine: the interface SecretsProvider of pkg/secrets/common, and the one
-- over a Kubernetes secret, pkg/secrets/providers/k8secret.
use webmesh_vdi.Prelude.{◌≡◌, Bool, true, false, Option, none, some, List, [], ◌∷◌, if◌then◌else◌}
use webmesh_vdi.Prelude.Bytes.{Bytes, bytes_eq}

-- What a read gives: a value, the error that there is none, or any other error.
pub data ReadResult (A : Type 0) : Type 0 where
  found : A → ReadResult A
  absent : ReadResult A
  unreadable : ReadResult A

-- A map secret is of the type M. A write says whether it succeeded; it takes none for nil.
pub record Backend (B : Type 0) (M : Type 0) : Type 0 where
  pub read : Bytes → B → ReadResult Bytes
  pub write : Bytes → Option Bytes → B → Bool × B
  pub read_map : Bytes → B → ReadResult M
  pub write_map : Bytes → Option M → B → Bool × B

unfoldable pub stored_as : {A : Type 0} → Option A → ReadResult A
stored_as (some a) = found a
stored_as none = absent

-- What a backend promises of the secrets that are not maps.
pub record IsStore {B : Type 0} {M : Type 0} (b : Backend B M) : Type 0 where
  pub read_write :
      (name : Bytes) (c : Option Bytes) (st : B)
      → (b.write name c st).0 ≡ true
      → b.read name (b.write name c st).1 ≡ stored_as c
  pub read_other :
      (name other : Bytes) (c : Option Bytes) (st : B)
      → bytes_eq other name ≡ false
      → b.read other (b.write name c st).1 ≡ b.read other st
  pub write_failed :
      (name : Bytes) (c : Option Bytes) (st : B)
      → (b.write name c st).0 ≡ false
      → (b.write name c st).1 ≡ st
  pub read_other_map :
      (name other : Bytes) (m : Option M) (st : B)
      → bytes_eq other name ≡ false
      → b.read other (b.write_map name m st).1 ≡ b.read other st
  pub write_map_failed :
      (name : Bytes) (m : Option M) (st : B)
      → (b.write_map name m st).0 ≡ false
      → (b.write_map name m st).1 ≡ st

-- The data of the Kubernetes secret, and whether the client's Get and Update succeed.
pub record Cluster : Type 0 where
  pub entries : List (Bytes × Bytes)
  pub get_ok : Bool
  pub update_ok : Bool

unfoldable pub lookup : Bytes → List (Bytes × Bytes) → ReadResult Bytes
lookup name [] = absent
lookup name ((k, v) ∷ es) = if bytes_eq name k then found v else lookup name es

unfoldable pub delete : Bytes → List (Bytes × Bytes) → List (Bytes × Bytes)
delete name [] = []
delete name ((k, v) ∷ es) = if bytes_eq name k then delete name es else (k, v) ∷ delete name es

-- `secret.Data[name] = content`, or the removal of the key for nil.
unfoldable pub put : Bytes → Option Bytes → List (Bytes × Bytes) → List (Bytes × Bytes)
put name none es = delete name es
put name (some v) es = (name, v) ∷ delete name es

unfoldable pub k8s_read : Bytes → Cluster → ReadResult Bytes
k8s_read name st = if st.get_ok then lookup name st.entries else unreadable

unfoldable pub k8s_write : Bytes → Option Bytes → Cluster → Bool × Cluster
k8s_write name c st =
    if st.get_ok
    then (if st.update_ok
        then (true, record st { entries = put name c st.entries })
        else (false, st))
    else (false, st)

-- What comes of the JSON of a map, none for an error of its encoding.
unfoldable pub write_marshalled : Bytes → Option Bytes → Cluster → Bool × Cluster
write_marshalled name none st = (false, st)
write_marshalled name (some out) st = k8s_write name (some out) st

-- The JSON of a map of base64 texts is a parameter.
module _ {M : Type 0} (marshal : M → Option Bytes) (unmarshal : Bytes → Option M) where
  unfoldable pub k8s_read_map : Bytes → Cluster → ReadResult M
  k8s_read_map name st = elim (k8s_read name st) [
    | found contents ↦ elim (unmarshal contents) [ some m ↦ found m | none ↦ unreadable ]
    | absent ↦ absent
    | unreadable ↦ unreadable
  ]

  unfoldable pub k8s_write_map : Bytes → Option M → Cluster → Bool × Cluster
  k8s_write_map name none st = k8s_write name none st
  k8s_write_map name (some m) st = write_marshalled name (marshal m) st

  unfoldable pub k8s_backend : Backend Cluster M
  k8s_backend = record {
    read = k8s_read;
    write = k8s_write;
    read_map = k8s_read_map;
    write_map = k8s_write_map;
  }
