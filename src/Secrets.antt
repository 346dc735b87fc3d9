-- ===== src/Secrets.antt =====
-- The secrets engine as its callers use it: ReadSecret, WriteSecret, Lock and Release of
-- pkg/secrets/secrets_engine.go, by their answers. The engine itself is in the modules below.
pub mod Store
pub mod Engine
pub mod Coherent
pub mod Kept
pub mod Mutex
pub mod Lock
pub mod Acquired
pub mod Tests
use webmesh_vdi.Prelude.{
  Bool, true, false, List, [], ◌∷◌, ◌++◌, ◌≡◌, ◌⊎◌, inl, inr, refl, Bool-cases, if◌then◌else◌,
}
use webmesh_vdi.Prelude.Bytes.{Bytes}

-- What ReadSecret answers for the key of the caller.
pub data SecretRead : Type 0 where
  secret : Bytes → SecretRead
  secret_not_found read_error : SecretRead

-- The answers of the engine during one operation, `true` for a nil error.
pub record SecretEngine : Type 0 where
  pub lock_ok : Bool
  pub read : SecretRead
  pub write_ok : Bool

-- The calls of an operation, in order.
pub data SecretCall : Type 0 where
  call_lock call_read call_release : SecretCall
  call_write : Bytes → SecretCall

-- `if err := Lock(15); err != nil { return err }; defer Release()` around the rest of a function,
-- which is given by its result and its calls.
unfoldable pub locked : {R : Type 0} → SecretEngine → R → R × List SecretCall → R × List SecretCall
locked e lock_failed (result, calls) =
    if e.lock_ok
    then (result, call_lock ∷ (calls ++ call_release ∷ []))
    else (lock_failed, call_lock ∷ [])

-- A write of new contents as the last step, with its error as the result.
unfoldable pub write_back : {R : Type 0} → SecretEngine → R → R → Bytes → R × List SecretCall
write_back e done write_failed contents =
    (if e.write_ok then done else write_failed, call_write contents ∷ [])

-- One read, and at most one write after it.
pub data OneWrite : List SecretCall → Type 0 where
  read_only : OneWrite (call_read ∷ [])
  read_write : (contents : Bytes) → OneWrite (call_read ∷ call_write contents ∷ [])

-- The lock is asked for first. If it is not given there is no other call; if it is, it is given back
-- as the last call, after one read and at most one write.
abbrev pub Disciplined : SecretEngine → List SecretCall → Type 0
Disciplined e calls =
    ((e.lock_ok ≡ false) × (calls ≡ call_lock ∷ []))
    ⊎ ((e.lock_ok ≡ true)
        × ((inner : List SecretCall) × (calls ≡ call_lock ∷ (inner ++ call_release ∷ []))
            × OneWrite inner))

pub locked-Disciplined :
    {R : Type 0} (e : SecretEngine) (lock_failed : R) (rest : R × List SecretCall)
    → OneWrite rest.1
    → Disciplined e (locked e lock_failed rest).1
unfolding locked
locked-Disciplined e lock_failed (result, calls) w = elim (Bool-cases e.lock_ok) [
  | inl h ↦ rw h (inr (refl, (calls, refl, w)))
  | inr h ↦ rw h (inl (refl, refl))
]
