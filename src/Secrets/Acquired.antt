-- ===== src/Secrets/Acquired.antt =====
-- Acquire comes to an end.
use webmesh_vdi.Prelude.{
  ℕ, zero, suc, ◌+◌, ◌*◌, ◌<◌, ◌≡◌, ◌≢◌, ◌⊎◌, inl, inr, refl, Bool, true, false, ◌&&◌, Option, none,
  some, List, [], ◌∷◌, arith, ltb, Bool-cases,
}
use webmesh_vdi.Secrets.Lock.{
  second, ConfigMap, Lock, new_config_map, Held, Server, create, Attempted, acquired, again,
  stopped, crashed, last_create, is_stale, Released, released, release_error, no_owner,
  release_lock, delete_logged, settle, finish_attempt, after_release, check_existing, after_create,
  attempt, retry, acquire, release, release_ok, owned_by, release_owned,
}

-- The API server answers the first Create, the Get and the Delete, and nobody acts between that
-- Create and the Get.
pub record IsQuiet (server : Server) : Type 0 where
  pub create_answers : server.create_ok ≡ true
  pub get_answers : server.get_ok ≡ true
  pub delete_answers : server.delete_ok ≡ true
  pub get_undisturbed : (held : Held) → server.before_get held ≡ held

module _ (l : Lock) (start now : ℕ) (server : Server) where
  -- Past the deadline the attempt does not go on.
  finish_attempt-late :
      (held : Held)
      → 0 < l.timeout
      → start + l.timeout < now
      → finish_attempt l start now server held ≡ (stopped, held)
  unfolding finish_attempt
  finish_attempt-late held p late = ground (arith, p, late)

  after_release-late :
      (owners : List ℕ) (held : Held)
      → 0 < l.timeout
      → start + l.timeout < now
      → (after_release l start now server (delete_logged true owners held)).0 ≢ again
  unfolding after_release delete_logged
  after_release-late [] held p late = λ h. cc h
  after_release-late (uid ∷ uids) held p late = rw (finish_attempt-late none p late) (λ h. cc h)

  check_existing-late :
      (cm : ConfigMap)
      → IsQuiet server
      → 0 < l.timeout
      → start + l.timeout < now
      → (check_existing l start now server (some cm)).0 ≢ again
  unfolding check_existing release_lock
  check_existing-late cm q p late = elim (Bool-cases (is_stale l.timeout now cm.expiry)) [
    | inl e ↦
        simp (e, q.delete_answers)
          (after_release-late cm.owners (server.before_delete (some cm)) p late)
    | inr e ↦ simp e (rw (finish_attempt-late (some cm) p late) (λ h. cc h))
  ]

  created-late :
      (held : Held)
      → IsQuiet server
      → 0 < l.timeout
      → start + l.timeout < now
      → (after_create l start now server (create true (new_config_map l start) held)).0 ≢ again
  unfolding after_create create
  created-late none q p late = λ h. cc h
  created-late (some cm) q p late =
      simp (q.get_answers, q.get_undisturbed (some cm)) (check_existing-late cm q p late)

  attempt-late :
      (held : Held)
      → IsQuiet server
      → 0 < l.timeout
      → start + l.timeout < now
      → (attempt l start now server held).0 ≢ again
  unfolding attempt
  attempt-late held q p late =
      simp q.create_answers (created-late (server.before_attempt held) q p late)

-- What a result says of the config map: the lock is that of the own pod, with the expiry counted from
-- the start of Acquire, and Release gives it back. An attempt that is to be repeated is no result.
abbrev pub Ended : Lock → ℕ → Attempted × Held → Type 0
Ended l start (acquired, held) =
    (held ≡ some (new_config_map l start)) × (release l true true held ≡ (release_ok, none))
Ended l start (stopped, held) = Unit
Ended l start (crashed, held) = Unit
Ended l start (again, held) = ⊥

-- The same of an attempt, which may also have to be repeated.
abbrev Tried : Lock → ℕ → Attempted × Held → Type 0
Tried l start (acquired, held) =
    (held ≡ some (new_config_map l start)) × (release l true true held ≡ (release_ok, none))
Tried l start (stopped, held) = Unit
Tried l start (crashed, held) = Unit
Tried l start (again, held) = Unit

release-own :
    (l : Lock) (start : ℕ)
    → release l true true (some (new_config_map l start)) ≡ (release_ok, none)
unfolding release owned_by release_owned release_lock delete_logged new_config_map
release-own l start = ground arith

module _ (l : Lock) (start now : ℕ) (server : Server) where
  last_create-Tried :
      (answers : Bool) (held : Held)
      → Tried l start (last_create (create answers (new_config_map l start) held))
  unfolding last_create create
  last_create-Tried true none = (refl, release-own l start)
  last_create-Tried true (some cm) = tt
  last_create-Tried false held = tt

  finish_attempt-Tried : (held : Held) → Tried l start (finish_attempt l start now server held)
  unfolding finish_attempt
  finish_attempt-Tried held = elim (Bool-cases (ltb 0 l.timeout && ltb (start + l.timeout) now)) [
    | inl e ↦ simp e tt
    | inr e ↦ simp e (last_create-Tried server.create_again_ok (server.before_create held))
  ]

  after_release-Tried : (p : Released × Held) → Tried l start (after_release l start now server p)
  unfolding after_release
  after_release-Tried (released, held) = finish_attempt-Tried held
  after_release-Tried (release_error, held) = tt
  after_release-Tried (no_owner, held) = tt

  check_existing-Tried : (held : Held) → Tried l start (check_existing l start now server held)
  unfolding check_existing
  check_existing-Tried none = last_create-Tried server.create_again_ok (server.before_create none)
  check_existing-Tried (some cm) = elim (Bool-cases (is_stale l.timeout now cm.expiry)) [
    | inl e ↦
        simp e
          (after_release-Tried (release_lock server.delete_ok cm (server.before_delete (some cm))))
    | inr e ↦ simp e (finish_attempt-Tried (some cm))
  ]

  after_create-Tried :
      (answers : Bool) (held : Held)
      → Tried l start
          (after_create l start now server (create answers (new_config_map l start) held))
  unfolding after_create create
  after_create-Tried false held = tt
  after_create-Tried true none = (refl, release-own l start)
  after_create-Tried true (some cm) = elim (Bool-cases server.get_ok) [
    | inl e ↦ simp e (check_existing-Tried (server.before_get (some cm)))
    | inr e ↦ simp e tt
  ]

  attempt-Tried : (held : Held) → Tried l start (attempt l start now server held)
  unfolding attempt
  attempt-Tried held = after_create-Tried server.create_ok (server.before_attempt held)

-- The time that is slept before the last of so many retries.
unfoldable pub slept : ℕ → ℕ → ℕ
slept zero sleep = 0
slept (suc n) sleep = sleep + slept n (2 * sleep)

module _ (l : Lock) (start : ℕ) where
  settle-ends :
      (p : Attempted × Held) (rest : Held → Option (Attempted × Held))
      → Tried l start p
      → (p.0 ≢ again)
        ⊎ ((held : Held) → (r : Attempted × Held) × (rest held ≡ some r) × Ended l start r)
      → (r : Attempted × Held) × (settle p rest ≡ some r) × Ended l start r
  unfolding settle
  settle-ends (again, held) rest t (inl n) = absurd (n refl)
  settle-ends (again, held) rest t (inr h) = h held
  settle-ends (acquired, held) rest t h = ((acquired, held), refl, t)
  settle-ends (stopped, held) rest t h = ((stopped, held), refl, t)
  settle-ends (crashed, held) rest t h = ((crashed, held), refl, t)

module _ (l : Lock) (start : ℕ) (server : ℕ → Server) (spent : ℕ → ℕ) where
  retry-ends :
      (n k sleep now : ℕ) (held : Held)
      → ((i : ℕ) → IsQuiet (server i))
      → 0 < l.timeout
      → start + l.timeout < now + slept n sleep
      → (r : Attempted × Held) × (retry l start server spent (suc n) k sleep now held ≡ some r)
        × Ended l start r
  unfolding retry slept
  retry-ends zero k sleep now held q p late =
      settle-ends l start (attempt l start now (server k) held) _
        (attempt-Tried l start now (server k) held)
        (inl (attempt-late l start now (server k) held (q k) p (omega (arith, late))))
  retry-ends (suc n) k sleep now held q p late =
      settle-ends l start (attempt l start now (server k) held) _
        (attempt-Tried l start now (server k) held)
        (inr (λ h.
          retry-ends n (suc k) (2 * sleep) (now + spent k + sleep) h q p (omega (arith, late))))

  -- Where in every attempt the API server answers the first Create, the Get and the Delete, and nobody
  -- acts between that Create and the Get, Acquire with a positive timeout comes to an end, whatever
  -- others do before the attempts and between their other calls, and however long an attempt takes:
  -- with one attempt more than it takes for the doubled sleeps, from one second on, to be longer than
  -- the timeout, it has a result. This is the lock, as the config map of the own pod with the expiry
  -- counted from the start of Acquire, which Release then removes if the API server answers it; or the
  -- error that the time is over, or a panic.
  pub acquire-ends :
      (n : ℕ) (held : Held)
      → ((i : ℕ) → IsQuiet (server i))
      → 0 < l.timeout
      → l.timeout < slept n second
      → (r : Attempted × Held) × (acquire l start server spent (suc n) held ≡ some r)
        × Ended l start r
  unfolding acquire
  acquire-ends n held q p long = retry-ends n 0 second start held q p (omega (arith, long))
