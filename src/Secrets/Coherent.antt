-- ===== src/Secrets/Coherent.antt =====
-- The cache of the secrets engine against its backend, where nobody else writes to the backend.
use webmesh_vdi.Prelude.{
  ℕ, ◌≡◌, refl, sym, ◌∙◌, ap, inl, inr, Bool, true, false, Option, none, some, List, [], ◌∷◌, arith,
  ltb, Bool-cases, Option-cases, if◌then◌else◌,
}
use mathlib.Core.Path.{subst, ap₂}
use webmesh_vdi.Prelude.Bytes.{Bytes, bytes_eq, bytes_eq_iff}
use webmesh_vdi.Secrets.Store.{ReadResult, found, absent, unreadable, stored_as, Backend, IsStore}
use webmesh_vdi.Secrets.Engine.{
  CacheItem, Engine, appended, cached, read_cache, set_cache, write_cache, write_cache_map, fetched,
  read_secret, write_secret, write_secret_map, append_to, append_secret,
}

-- What a caller does with the secrets that are not maps, and the writes of map secrets beside it.
pub data Operation (M : Type 0) : Type 0 where
  do_read : (name : Bytes) (use_cache : Bool) → Operation M
  do_write : (name : Bytes) (contents : Option Bytes) → Operation M
  do_append : (name line : Bytes) → Operation M
  do_write_map : (name : Bytes) (m : Option M) → Operation M

-- The answer: what was read, or whether the write succeeded.
pub data Answer : Type 0 where
  value : ReadResult Bytes → Answer
  status : Bool → Answer

module _ {B : Type 0} {M : Type 0} (backend : Backend B M) where
  -- Whatever the cache has for a name, the backend has.
  unfoldable pub Coherent : Engine B M → Type 0
  Coherent e =
      (name : Bytes) (item : CacheItem M) (v : Bytes)
      → e.cache name ≡ some item
      → item.contents ≡ some v
      → backend.read name e.state ≡ found v

  -- The operations on the backend alone.
  abbrev append_plain : Bytes → Bytes → ReadResult Bytes → B → Bool × B
  append_plain name line (found v) st = backend.write name (some (appended v line)) st
  append_plain name line absent st = backend.write name (some (appended [] line)) st
  append_plain name line unreadable st = (false, st)

  abbrev as_status : Bool × B → Answer × B
  as_status (done, st) = (status done, st)

  unfoldable pub plain : Operation M → B → Answer × B
  plain (do_read name use_cache) st = (value (backend.read name st), st)
  plain (do_write name contents) st = as_status (backend.write name contents st)
  plain (do_append name line) st = as_status (append_plain name line (backend.read name st) st)
  plain (do_write_map name m) st = as_status (backend.write_map name m st)

  abbrev answer_of_read : ReadResult Bytes × Engine B M → Answer × Engine B M
  answer_of_read (r, e) = (value r, e)

  abbrev answer_of_write : Bool × Engine B M → Answer × Engine B M
  answer_of_write (done, e) = (status done, e)

  unfoldable pub perform : Operation M → ℕ → Engine B M → Answer × Engine B M
  perform (do_read name use_cache) now e = answer_of_read (read_secret backend name use_cache now e)
  perform (do_write name contents) now e =
      answer_of_write (write_secret backend name contents now e)
  perform (do_append name line) now e = answer_of_write (append_secret backend name line now e)
  perform (do_write_map name m) now e = answer_of_write (write_secret_map backend name m now e)

  -- What a change of the item of a name needs: the other items are right, and so is the new one.
  Coherent-set_cache :
      (e : Engine B M) (name : Bytes) (item : CacheItem M)
      → ((other : Bytes) (old : CacheItem M) (v : Bytes)
          → bytes_eq other name ≡ false
          → e.cache other ≡ some old
          → old.contents ≡ some v
          → backend.read other e.state ≡ found v)
      → ((v : Bytes) → item.contents ≡ some v → backend.read name e.state ≡ found v)
      → Coherent (set_cache backend name item e)
  unfolding Coherent
  Coherent-set_cache e name item h k other item' v c w = elim (Bool-cases (bytes_eq other name)) [
    | inl q ↦
        let same : other ≡ name = (bytes_eq_iff other name).0 q in
        let it : item ≡ item' = ground (arith, q, c) in rw same (k v (rw it w))
    | inr q ↦ h other item' v q (ground (arith, q, c)) w
  ]

  of_cached :
      (o : Option (CacheItem M)) (now : ℕ) (v : Bytes)
      → ◌≡◌ {A = Option Bytes}
          (elim (cached backend o now) [ some item ↦ item.contents | none ↦ none ])
          (some v)
      → (item : CacheItem M) × (o ≡ some item) × (item.contents ≡ some v)
  unfolding cached
  of_cached none now v h = cc h
  of_cached (some item) now v h = elim (Bool-cases (ltb now item.expires_at)) [
    | inl q ↦ (item, refl, ground (arith, q, h))
    | inr q ↦ absurd (ground (arith, q, h))
  ]

  read_cache-Coherent :
      (e : Engine B M) (name : Bytes) (now : ℕ) (v : Bytes)
      → Coherent e
      → read_cache backend name now e ≡ some v
      → backend.read name e.state ≡ found v
  unfolding read_cache Coherent
  read_cache-Coherent e name now v h k =
      let (item, c, w) = of_cached (e.cache name) now v k in h name item v c w

  -- An operation of the engine that gives the answer of the backend and leaves its state, with a
  -- cache that is right again.
  record Matches {A : Type 0} (a : A) (st : B) (out : A × Engine B M) : Type 0 where
    same_answer : out.0 ≡ a
    same_state : out.1.state ≡ st
    right_cache : Coherent out.1

  fetched-Matches :
      (name : Bytes) (now : ℕ) (r : ReadResult Bytes) (e : Engine B M)
      → Coherent e
      → backend.read name e.state ≡ r
      → Matches r e.state (fetched backend name now r e)
  unfolding fetched write_cache Coherent
  fetched-Matches name now (found v) e h k = record {
    same_answer = refl;
    same_state = refl;
    right_cache =
        Coherent-set_cache e name _ (λ other old w q c i. h other old w c i)
          (λ w i. ground (arith, k, i));
  }
  fetched-Matches name now absent e h k = record {
    same_answer = refl;
    same_state = refl;
    right_cache = h;
  }
  fetched-Matches name now unreadable e h k = record {
    same_answer = refl;
    same_state = refl;
    right_cache = h;
  }

  of_if : (b : Bool) (o : Option Bytes) (v : Bytes) → (if b then o else none) ≡ some v → o ≡ some v
  of_if true o v h = h
  of_if false o v h = cc h

  read_secret-Matches :
      (name : Bytes) (use_cache : Bool) (now : ℕ) (e : Engine B M)
      → Coherent e
      → Matches (backend.read name e.state) e.state (read_secret backend name use_cache now e)
  unfolding read_secret
  read_secret-Matches name use_cache now e h =
      elim (Option-cases (if use_cache then read_cache backend name now e else none)) [
        | inl q ↦
            rw (read_secret, q) (fetched-Matches name now (backend.read name e.state) e h refl)
        | inr q ↦
            let kept =
              read_cache-Coherent e name now q.0 h
                (of_if use_cache (read_cache backend name now e) q.0 q.1) in
            rw (read_secret, q.1)
              record { same_answer = sym kept; same_state = refl; right_cache = h }
      ]

  left_alone :
      (e : Engine B M) (st : B) → Coherent e → st ≡ e.state → Coherent (record e { state = st })
  left_alone e st h k = subst (λ t. Coherent (record e { state = t })) (sym k) h

  module _ (store : IsStore backend) where
    -- After a write that succeeds the new item is right, and the others still are.
    Coherent-write_cache :
        (name : Bytes) (contents : Option Bytes) (now : ℕ) (e : Engine B M)
        → Coherent e
        → (backend.write name contents e.state).0 ≡ true
        → Coherent (
            write_cache backend name contents now
              (record e { state = (backend.write name contents e.state).1 }))
    unfolding write_cache Coherent
    Coherent-write_cache name contents now e h k =
        Coherent-set_cache (record e { state = (backend.write name contents e.state).1 }) name _
          (λ other old v q c i. store.read_other name other contents e.state q ∙ h other old v c i)
          (λ v i. store.read_write name contents e.state k ∙ (rw i (unfold stored_as in refl)))

    write_secret-Matches :
        (name : Bytes) (contents : Option Bytes) (now : ℕ) (e : Engine B M)
        → Coherent e
        → Matches
            (backend.write name contents e.state).0
            (backend.write name contents e.state).1
            (write_secret backend name contents now e)
    unfolding write_secret
    write_secret-Matches name contents now e h =
        elim (Bool-cases (backend.write name contents e.state).0) [
          | inl q ↦ record {
            same_answer = refl;
            same_state = simp q (unfold write_cache in refl);
            right_cache = simp q (Coherent-write_cache name contents now e h q);
          }
          | inr q ↦ record {
            same_answer = refl;
            same_state = simp q refl;
            right_cache = simp q (left_alone e _ h (store.write_failed name contents e.state q));
          }
        ]

    Coherent-write_cache_map :
        (name : Bytes) (m : Option M) (now : ℕ) (e : Engine B M)
        → Coherent e
        → Coherent (
            write_cache_map backend name m now
              (record e { state = (backend.write_map name m e.state).1 }))
    unfolding write_cache_map Coherent
    Coherent-write_cache_map name m now e h =
        Coherent-set_cache (record e { state = (backend.write_map name m e.state).1 }) name _
          (λ other old v q c i. store.read_other_map name other m e.state q ∙ h other old v c i)
          (λ v i. cc i)

    write_secret_map-Matches :
        (name : Bytes) (m : Option M) (now : ℕ) (e : Engine B M)
        → Coherent e
        → Matches
            (backend.write_map name m e.state).0
            (backend.write_map name m e.state).1
            (write_secret_map backend name m now e)
    unfolding write_secret_map
    write_secret_map-Matches name m now e h =
        elim (Bool-cases (backend.write_map name m e.state).0) [
          | inl q ↦ record {
            same_answer = refl;
            same_state = simp q (unfold write_cache_map in refl);
            right_cache = simp q (Coherent-write_cache_map name m now e h);
          }
          | inr q ↦ record {
            same_answer = refl;
            same_state = simp q refl;
            right_cache = simp q (left_alone e _ h (store.write_map_failed name m e.state q));
          }
        ]

    append_to-Matches :
        (name line : Bytes) (now : ℕ) (r : ReadResult Bytes) (e : Engine B M)
        → Coherent e
        → Matches
            (append_plain name line r e.state).0
            (append_plain name line r e.state).1
            (append_to backend name line now (r, e))
    unfolding append_to
    append_to-Matches name line now (found v) e h =
        write_secret-Matches name (some (appended v line)) now e h
    append_to-Matches name line now absent e h =
        write_secret-Matches name (some (appended [] line)) now e h
    append_to-Matches name line now unreadable e h = record {
      same_answer = refl;
      same_state = refl;
      right_cache = h;
    }

    append_secret-Matches :
        (name line : Bytes) (now : ℕ) (e : Engine B M)
        → Coherent e
        → Matches
            (append_plain name line (backend.read name e.state) e.state).0
            (append_plain name line (backend.read name e.state) e.state).1
            (append_secret backend name line now e)
    unfolding append_secret
    append_secret-Matches name line now e h =
        let got = read_secret-Matches name true now e h in
        let (r, e1) = read_secret backend name true now e in
        let done = append_to-Matches name line now r e1 got.right_cache in
        let same : append_plain name line r e1.state
            ≡ append_plain name line (backend.read name e.state) e.state =
          ap (λ s. append_plain name line s e1.state) got.same_answer
          ∙ ap (append_plain name line (backend.read name e.state)) got.same_state in
        record {
          same_answer = done.same_answer ∙ ap (λ p. p.0) same;
          same_state = done.same_state ∙ ap (λ p. p.1) same;
          right_cache = done.right_cache;
        }

    perform-Matches :
        (op : Operation M) (now : ℕ) (e : Engine B M)
        → Coherent e
        → Matches (plain op e.state).0 (plain op e.state).1 (perform op now e)
    unfolding plain perform
    perform-Matches (do_read name use_cache) now e h =
        let m = read_secret-Matches name use_cache now e h in
        record {
          same_answer = ap value m.same_answer;
          same_state = m.same_state;
          right_cache = m.right_cache;
        }
    perform-Matches (do_write name contents) now e h =
        let m = write_secret-Matches name contents now e h in
        record {
          same_answer = ap status m.same_answer;
          same_state = m.same_state;
          right_cache = m.right_cache;
        }
    perform-Matches (do_append name line) now e h =
        let m = append_secret-Matches name line now e h in
        record {
          same_answer = ap status m.same_answer;
          same_state = m.same_state;
          right_cache = m.right_cache;
        }
    perform-Matches (do_write_map name x) now e h =
        let m = write_secret_map-Matches name x now e h in
        record {
          same_answer = ap status m.same_answer;
          same_state = m.same_state;
          right_cache = m.right_cache;
        }

  -- A sequence of operations, each with the time at which it is done.
  unfoldable pub run : List (Operation M × ℕ) → Engine B M → List Answer × Engine B M
  run [] e = ([], e)
  run ((op, now) ∷ ops) e =
      let (a, e1) = perform op now e in let (rest, e2) = run ops e1 in (a ∷ rest, e2)

  unfoldable pub run_plain : List (Operation M × ℕ) → B → List Answer × B
  run_plain [] st = ([], st)
  run_plain ((op, now) ∷ ops) st =
      let (a, st1) = plain op st in let (rest, st2) = run_plain ops st1 in (a ∷ rest, st2)

  -- Where the backend keeps what is written, and nobody else writes to it, the cache cannot be seen:
  -- an engine whose cache agrees with its backend answers every sequence of reads, with or without
  -- the cache, writes, appends and writes of map secrets, at whatever times, as the backend alone
  -- answers it, leaves the backend in the same state, and its cache agrees with it again.
  pub run_refines :
      IsStore backend
      → (ops : List (Operation M × ℕ)) (e : Engine B M) → Coherent e
      → ((run ops e).0 ≡ (run_plain ops e.state).0)
        × ((run ops e).1.state ≡ (run_plain ops e.state).1)
        × Coherent (run ops e).1
  unfolding run run_plain
  run_refines store [] e h = (refl, refl, h)
  run_refines store ((op, now) ∷ ops) e h =
      let m = perform-Matches store op now e h in
      let e1 = (perform op now e).1 in
      let (answers, states, right) = run_refines store ops e1 m.right_cache in
      let same : run_plain ops e1.state ≡ run_plain ops (plain op e.state).1 =
        ap (run_plain ops) m.same_state in
      (ap₂ ◌∷◌ m.same_answer (answers ∙ ap (λ p. p.0) same), states ∙ ap (λ p. p.1) same, right)
