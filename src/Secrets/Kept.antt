-- ===== src/Secrets/Kept.antt =====
-- The Kubernetes secret keeps what is written, and what an append does when a peer has written.
use webmesh_vdi.Prelude.{
  ℕ, ◌<◌, ◌≡◌, refl, sym, ◌∙◌, ap, inl, inr, true, false, Option, none, some, List, [], ◌∷◌, arith,
  Bool-cases,
}
use webmesh_vdi.Prelude.Bytes.{Bytes, bytes_eq, bytes_eq_iff}
use webmesh_vdi.Secrets.Store.{
  found, absent, stored_as, Backend, IsStore, Cluster, lookup, delete, put, k8s_read, k8s_write,
  k8s_write_map, k8s_backend, write_marshalled,
}
use webmesh_vdi.Secrets.Engine.{
  CacheItem, Engine, appended, cached, read_cache, read_secret, write_secret, append_to,
  append_secret, write_cache,
}

lookup-delete : (name : Bytes) (es : List (Bytes × Bytes)) → lookup name (delete name es) ≡ absent
unfolding lookup delete
lookup-delete name [] = refl
lookup-delete name ((k, v) ∷ es) = ground (arith, lookup-delete name es)

lookup-delete_other :
    (name other : Bytes) (es : List (Bytes × Bytes))
    → bytes_eq other name ≡ false
    → lookup other (delete name es) ≡ lookup other es
unfolding lookup delete
lookup-delete_other name other [] h = refl
lookup-delete_other name other ((k, v) ∷ es) h = ground (
  arith,
  lookup-delete_other name other es h,
  bytes_eq_iff name k,
  bytes_eq_iff other name,
  bytes_eq_iff other k,
)

lookup-put :
    (name : Bytes) (c : Option Bytes) (es : List (Bytes × Bytes))
    → lookup name (put name c es) ≡ stored_as c
unfolding put stored_as
lookup-put name none es = lookup-delete name es
lookup-put name (some v) es = unfold lookup in (rw ((bytes_eq_iff name name).1 refl) refl)

lookup-put_other :
    (name other : Bytes) (c : Option Bytes) (es : List (Bytes × Bytes))
    → bytes_eq other name ≡ false
    → lookup other (put name c es) ≡ lookup other es
unfolding put
lookup-put_other name other none es h = lookup-delete_other name other es h
lookup-put_other name other (some v) es h =
    unfold lookup in (rw h (lookup-delete_other name other es h))

write-read :
    (name : Bytes) (c : Option Bytes) (st : Cluster)
    → (k8s_write name c st).0 ≡ true
    → k8s_read name (k8s_write name c st).1 ≡ stored_as c
unfolding k8s_write k8s_read
write-read name c st h = ground (arith, lookup-put name c st.entries, h)

write-read_other :
    (name other : Bytes) (c : Option Bytes) (st : Cluster)
    → bytes_eq other name ≡ false
    → k8s_read other (k8s_write name c st).1 ≡ k8s_read other st
unfolding k8s_write k8s_read
write-read_other name other c st h = ground (arith, lookup-put_other name other c st.entries h)

write-fails :
    (name : Bytes) (c : Option Bytes) (st : Cluster)
    → (k8s_write name c st).0 ≡ false
    → (k8s_write name c st).1 ≡ st
unfolding k8s_write
write-fails name c st h = ground (arith, h)

marshalled-read_other :
    (name other : Bytes) (out : Option Bytes) (st : Cluster)
    → bytes_eq other name ≡ false
    → k8s_read other (write_marshalled name out st).1 ≡ k8s_read other st
unfolding write_marshalled
marshalled-read_other name other none st h = refl
marshalled-read_other name other (some out) st h = write-read_other name other (some out) st h

marshalled-fails :
    (name : Bytes) (out : Option Bytes) (st : Cluster)
    → (write_marshalled name out st).0 ≡ false
    → (write_marshalled name out st).1 ≡ st
unfolding write_marshalled
marshalled-fails name none st h = refl
marshalled-fails name (some out) st h = write-fails name (some out) st h

module _ {M : Type 0} (marshal : M → Option Bytes) (unmarshal : Bytes → Option M) where
  write_map-read_other :
      (name other : Bytes) (m : Option M) (st : Cluster)
      → bytes_eq other name ≡ false
      → k8s_read other (k8s_write_map marshal unmarshal name m st).1 ≡ k8s_read other st
  unfolding k8s_write_map
  write_map-read_other name other none st h = write-read_other name other none st h
  write_map-read_other name other (some m) st h = marshalled-read_other name other (marshal m) st h

  write_map-fails :
      (name : Bytes) (m : Option M) (st : Cluster)
      → (k8s_write_map marshal unmarshal name m st).0 ≡ false
      → (k8s_write_map marshal unmarshal name m st).1 ≡ st
  unfolding k8s_write_map
  write_map-fails name none st h = write-fails name none st h
  write_map-fails name (some m) st h = marshalled-fails name (marshal m) st h

  -- The Kubernetes secret keeps what is written to it.
  pub k8s_backend-IsStore : IsStore (k8s_backend marshal unmarshal)
  unfolding k8s_backend
  k8s_backend-IsStore = record {
    read_write = write-read;
    read_other = write-read_other;
    write_failed = write-fails;
    read_other_map = write_map-read_other;
    write_map_failed = write_map-fails;
  }

module _ {B : Type 0} {M : Type 0} (backend : Backend B M) where
  read_secret-fresh :
      (e : Engine B M) (name v : Bytes) (now : ℕ) (item : CacheItem M)
      → e.cache name ≡ some item
      → item.contents ≡ some v
      → now < item.expires_at
      → read_secret backend name true now e ≡ (found v, e)
  unfolding read_secret read_cache cached
  read_secret-fresh e name v now item c w fresh = ground (arith, c, w, fresh)

  write_secret-state :
      (e : Engine B M) (name : Bytes) (contents : Option Bytes) (now : ℕ)
      → (write_secret backend name contents now e).1.state ≡ (backend.write name contents e.state).1
  unfolding write_secret
  write_secret-state e name contents now =
      elim (Bool-cases (backend.write name contents e.state).0) [
        | inl q ↦ simp q (unfold write_cache in refl)
        | inr q ↦ simp q refl
      ]

  -- Where the cache has a value for a name that has not run out, an append that succeeds leaves the
  -- backend with this value and the line added to it, whatever the backend had: what a peer has
  -- written since is lost.
  pub append_secret-stale :
      IsStore backend
      → (e : Engine B M) (name line v : Bytes) (now : ℕ) (item : CacheItem M)
      → e.cache name ≡ some item
      → item.contents ≡ some v
      → now < item.expires_at
      → (append_secret backend name line now e).0 ≡ true
      → backend.read name (append_secret backend name line now e).1.state ≡ found (appended v line)
  unfolding append_secret append_to
  append_secret-stale store e name line v now item c w fresh done =
      let same : append_secret backend name line now e
          ≡ write_secret backend name (some (appended v line)) now e =
        ap (append_to backend name line now) (read_secret-fresh e name v now item c w fresh) in
      ap (λ p. backend.read name p.1.state) same
      ∙ ap (backend.read name) (write_secret-state e name (some (appended v line)) now)
      ∙ store.read_write name (some (appended v line)) e.state
          (unfold write_secret in (sym (ap (λ p. p.0) same) ∙ done))
      ∙ unfold stored_as in refl
