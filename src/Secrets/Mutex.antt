-- ===== src/Secrets/Mutex.antt =====
-- Lock and Release of the secrets engine (pkg/secrets/secrets_engine.go), and the goroutines of one
-- process that call them. Whether the remote lock could be acquired is a parameter of the call.
use webmesh_vdi.Prelude.{
  ℕ, suc, ◌+◌, ◌≤◌, ◌≡◌, ◌≢◌, ◌⊎◌, inl, inr, refl, ◌∙◌, ap, Bool, true, false, Option, none, some,
  List, [], ◌∷◌, ◌++◌, arith, ltb, Bool-cases, if◌then◌else◌,
}

-- The mutex of the engine, and whether its pointer to a remote lock is set.
pub record Guard : Type 0 where
  pub mux : Bool
  pub remote : Bool

-- What a call of Lock comes to: whether it returns without an error, and the guard it leaves.
-- `none` while the mutex is held by a goroutine.
unfoldable pub lock_call : ℕ → Bool → Guard → Option (Bool × Guard)
lock_call replicas acquired g =
    if g.mux
    then none
    else if ltb 1 replicas
    then some (acquired, record { mux = true; remote = true })
    else some (true, record { mux = true; remote = g.remote })

-- A call of Release. `none` where the mutex is not held, which ends the program.
unfoldable pub release_call : Guard → Option Guard
release_call g = if g.mux then some (record { mux = false; remote = false }) else none

-- A caller of the engine: between its operations, or between Lock and the deferred Release.
pub data Phase : Type 0 where
  idle : Phase
  holding : Phase

pub record Process : Type 0 where
  pub threads : List Phase
  pub guard : Guard

-- The callers return where Lock fails, and call Release at their end where it does not.
pub data Step (replicas : ℕ) (s t : Process) : Type 0 where
  enters :
      (xs ys : List Phase) (acquired : Bool) (g : Guard)
      → s.threads ≡ xs ++ idle ∷ ys
      → lock_call replicas acquired s.guard ≡ some (true, g)
      → t ≡ record { threads = xs ++ holding ∷ ys; guard = g }
      → Step replicas s t
  gives_up :
      (xs ys : List Phase) (acquired : Bool) (g : Guard)
      → s.threads ≡ xs ++ idle ∷ ys
      → lock_call replicas acquired s.guard ≡ some (false, g)
      → t ≡ record { threads = s.threads; guard = g }
      → Step replicas s t
  leaves :
      (xs ys : List Phase) (g : Guard)
      → s.threads ≡ xs ++ holding ∷ ys
      → release_call s.guard ≡ some g
      → t ≡ record { threads = xs ++ idle ∷ ys; guard = g }
      → Step replicas s t

unfoldable pub holders : List Phase → ℕ
holders [] = 0
holders (idle ∷ ps) = holders ps
holders (holding ∷ ps) = suc (holders ps)

pub data Reachable (replicas : ℕ) : Process → Type 0 where
  starts : (s : Process) → holders s.threads ≡ 0 → s.guard.mux ≡ false → Reachable replicas s
  steps : (s t : Process) → Reachable replicas s → Step replicas s t → Reachable replicas t

holders-append : (xs ys : List Phase) → holders (xs ++ ys) ≡ holders xs + holders ys
unfolding holders
holders-append [] ys = omega arith
holders-append (idle ∷ xs) ys = holders-append xs ys
holders-append (holding ∷ xs) ys = omega (arith, holders-append xs ys)

-- At most one thread holds the lock, and none where the mutex is free.
record IsGuarded (s : Process) : Type 0 where
  one : holders s.threads ≤ 1
  free : s.guard.mux ≡ false → holders s.threads ≡ 0

lock_call-some :
    (replicas : ℕ) (acquired : Bool) (g g' : Guard) (done : Bool)
    → lock_call replicas acquired g ≡ some (done, g')
    → (g.mux ≡ false) × (g'.mux ≡ true)
unfolding lock_call
lock_call-some replicas acquired g g' done h = (ground (arith, h), ground (arith, h))

release_call-some : (g g' : Guard) → release_call g ≡ some g' → (g.mux ≡ true) × (g'.mux ≡ false)
unfolding release_call
release_call-some g g' h = (ground (arith, h), ground (arith, h))

holders-idle : (xs ys : List Phase) → holders (xs ++ idle ∷ ys) ≡ holders xs + holders ys
unfolding holders
holders-idle xs ys = holders-append xs (idle ∷ ys)

holders-holding :
    (xs ys : List Phase) → holders (xs ++ holding ∷ ys) ≡ suc (holders xs + holders ys)
unfolding holders
holders-holding xs ys = omega (arith, holders-append xs (holding ∷ ys))

Step-IsGuarded : (replicas : ℕ) (s t : Process) → IsGuarded s → Step replicas s t → IsGuarded t
Step-IsGuarded replicas s t i (enters xs ys acquired g at call e) =
    let (was_free, taken) = lock_call-some replicas acquired s.guard g true call in
    let none_holds = i.free was_free in
    rw e record {
      one = omega (arith, ap holders at, holders-idle xs ys, holders-holding xs ys, none_holds);
      free = λ m. absurd (ground (arith, m, taken));
    }
Step-IsGuarded replicas s t i (gives_up xs ys acquired g at call e) =
    let (was_free, taken) = lock_call-some replicas acquired s.guard g false call in
    rw e record { one = i.one; free = λ m. absurd (ground (arith, m, taken)) }
Step-IsGuarded replicas s t i (leaves xs ys g at call e) =
    let one = i.one in
    rw e record {
      one = omega (arith, ap holders at, holders-idle xs ys, holders-holding xs ys, one);
      free = λ m. omega (arith, ap holders at, holders-idle xs ys, holders-holding xs ys, one);
    }

Reachable-IsGuarded : (replicas : ℕ) (s : Process) → Reachable replicas s → IsGuarded s
Reachable-IsGuarded replicas s (starts s' none_holds is_free) = record {
  one = omega (arith, none_holds);
  free = λ m. none_holds;
}
Reachable-IsGuarded replicas t (steps s t' r move) =
    Step-IsGuarded replicas s t (Reachable-IsGuarded replicas s r) move

-- In every state that the callers of one process can reach, whatever the number of replicas and
-- whether or not the remote lock can be acquired, at most one of them is between Lock and Release,
-- and none is where the mutex is free.
pub Reachable-exclusive :
    (replicas : ℕ) (s : Process)
    → Reachable replicas s
    → (holders s.threads ≤ 1) × (s.guard.mux ≡ false → holders s.threads ≡ 0)
Reachable-exclusive replicas s r = let i = Reachable-IsGuarded replicas s r in (i.one, i.free)

-- With one replica the mutex is held only where a thread is to release it.
record IsLive (s : Process) : Type 0 where
  held : s.guard.mux ≡ true → holders s.threads ≡ 1

first_holder :
    (ps : List Phase)
    → (holders ps ≡ 0) ⊎ ((xs : List Phase) × (ys : List Phase) × (ps ≡ xs ++ holding ∷ ys))
unfolding holders
first_holder [] = inl refl
first_holder (holding ∷ ps) = inr ([], ps, refl)
first_holder (idle ∷ ps) = elim (first_holder ps) [
  | inl h ↦ inl h
  | inr h ↦ inr (idle ∷ h.0, h.1, ap (◌∷◌ idle) h.2)
]

gives_up-replicas :
    (replicas : ℕ) (acquired : Bool) (g g' : Guard)
    → replicas ≤ 1
    → lock_call replicas acquired g ≢ some (false, g')
unfolding lock_call
gives_up-replicas replicas acquired g g' h = λ k. ground (arith, h, k)

Step-IsLive :
    (replicas : ℕ) (s t : Process)
    → replicas ≤ 1
    → IsGuarded s
    → IsLive s
    → Step replicas s t
    → IsLive t
Step-IsLive replicas s t h i l (enters xs ys acquired g at call e) =
    let (was_free, taken) = lock_call-some replicas acquired s.guard g true call in
    let none_holds = i.free was_free in
    rw e record {
      held =
          λ m. omega (arith, ap holders at, holders-idle xs ys, holders-holding xs ys, none_holds);
    }
Step-IsLive replicas s t h i l (gives_up xs ys acquired g at call e) =
    absurd (gives_up-replicas replicas acquired s.guard g h call)
Step-IsLive replicas s t h i l (leaves xs ys g at call e) =
    let (was_held, is_free) = release_call-some s.guard g call in
    rw e record { held = λ m. absurd (ground (arith, m, is_free)) }

Reachable-IsLive : (replicas : ℕ) (s : Process) → replicas ≤ 1 → Reachable replicas s → IsLive s
Reachable-IsLive replicas s h (starts s' none_holds is_free) = record {
  held = λ m. absurd (ground (arith, m, is_free));
}
Reachable-IsLive replicas t h (steps s t' r move) =
    Step-IsLive replicas s t h (Reachable-IsGuarded replicas s r) (Reachable-IsLive replicas s h r)
      move

lock_call-free :
    (replicas : ℕ) (g : Guard)
    → replicas ≤ 1
    → g.mux ≡ false
    → lock_call replicas true g ≡ some (true, record { mux = true; remote = g.remote })
unfolding lock_call
lock_call-free replicas g h k = ground (arith, h, k)

release_call-held :
    (g : Guard) → g.mux ≡ true → release_call g ≡ some (record { mux = false; remote = false })
unfolding release_call
release_call-held g k = ground (arith, k)

-- With one replica no caller of the lock is kept from it for good: in every state that the callers of
-- one process can reach, and for each of them that is idle, either the lock can be taken by it now,
-- or some caller can release it, after which the mutex is free.
pub Reachable-live :
    (replicas : ℕ) (s : Process) (xs ys : List Phase)
    → replicas ≤ 1
    → Reachable replicas s
    → s.threads ≡ xs ++ idle ∷ ys
    → ((t : Process) × Step replicas s t × (t.threads ≡ xs ++ holding ∷ ys))
      ⊎ ((t : Process) × Step replicas s t × (t.guard.mux ≡ false))
Reachable-live replicas s xs ys h r at = elim (Bool-cases s.guard.mux) [
  | inl m ↦ elim (first_holder s.threads) [
    | inl z ↦ absurd (omega (arith, z, (Reachable-IsLive replicas s h r).held m))
    | inr w ↦
        let free_guard : Guard = record { mux = false; remote = false } in
        inr (
          record { threads = w.0 ++ idle ∷ w.1; guard = free_guard },
          leaves w.0 w.1 free_guard w.2 (release_call-held s.guard m) refl,
          refl,
        )
  ]
  | inr m ↦
      let taken : Guard = record { mux = true; remote = s.guard.remote } in
      inl (
        record { threads = xs ++ holding ∷ ys; guard = taken },
        enters xs ys true taken at (lock_call-free replicas s.guard h m) refl,
        refl,
      )
]

no-Step :
    (replicas : ℕ) (t u : Process)
    → t.guard.mux ≡ true
    → holders t.threads ≡ 0
    → ¬ Step replicas t u
no-Step replicas t u m z (enters xs ys acquired g at call e) =
    let free = (lock_call-some replicas acquired t.guard g true call).0 in
    absurd (ground (arith, m, free))
no-Step replicas t u m z (gives_up xs ys acquired g at call e) =
    let free = (lock_call-some replicas acquired t.guard g false call).0 in
    absurd (ground (arith, m, free))
no-Step replicas t u m z (leaves xs ys g at call e) =
    absurd (omega (arith, z, ap holders at, holders-holding xs ys))

-- After a call of Lock in which the remote lock could not be acquired, no caller of the process can
-- do anything with the lock any more, neither take it nor release it: the mutex stays held.
pub gives_up-stuck :
    (replicas : ℕ) (s t u : Process)
    → Reachable replicas s
    → t.threads ≡ s.threads
    → lock_call replicas false s.guard ≡ some (false, t.guard)
    → ¬ Step replicas t u
gives_up-stuck replicas s t u r same call =
    let (was_free, taken) = lock_call-some replicas false s.guard t.guard false call in
    no-Step replicas t u taken (ap holders same ∙ (Reachable-IsGuarded replicas s r).free was_free)
