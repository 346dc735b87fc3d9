-- ===== src/Secrets/Lock.antt =====
-- The lock over a Kubernetes config map: pkg/util/lock/lock.go, with Retry of pkg/util/common/util.go.
-- Times are in nanoseconds; a timeout that is not positive is 0.
use webmesh_vdi.Prelude.{
  ℕ, zero, suc, ◌+◌, ◌*◌, ◌/◌, Bool, true, false, ◌&&◌, Option, none, some, List, [], ◌∷◌, ◌==◌,
  ltb, if◌then◌else◌,
}

abbrev pub second : ℕ
second = 1000000000

-- The expiry in the data of a config map, in seconds.
pub data Expiry : Type 0 where
  unset : Expiry
  malformed : Expiry
  expires : ℕ → Expiry

-- The config map of a lock, with the uids of its owner references.
pub record ConfigMap : Type 0 where
  pub owners : List ℕ
  pub expiry : Expiry

-- The pod that asks for the lock.
pub record Lock : Type 0 where
  pub pod : ℕ
  pub timeout : ℕ

-- GetCMData
unfoldable pub cm_data : ℕ → ℕ → Expiry
cm_data timeout now = if ltb 0 timeout then expires ((now + timeout) / second) else unset

unfoldable pub new_config_map : Lock → ℕ → ConfigMap
new_config_map l now = record { owners = l.pod ∷ []; expiry = cm_data l.timeout now }

-- The config map of the lock's name in the cluster.
abbrev pub Held : Type 0
Held = Option ConfigMap

-- During one attempt: which calls of the client the API server answers, and what the other pods do
-- to the config map before the attempt and between the calls.
pub record Server : Type 0 where
  pub create_ok : Bool
  pub get_ok : Bool
  pub delete_ok : Bool
  pub create_again_ok : Bool
  pub before_attempt : Held → Held
  pub before_get : Held → Held
  pub before_delete : Held → Held
  pub before_create : Held → Held

pub data Created : Type 0 where
  created : Created
  already_exists : Created
  create_error : Created

unfoldable pub create : Bool → ConfigMap → Held → Created × Held
create false cm held = (create_error, held)
create true cm none = (created, some cm)
create true cm (some old) = (already_exists, some old)

-- What an attempt ends in: the lock, an error after which it is retried, the error that stops the
-- retrying, or a panic.
pub data Attempted : Type 0 where
  acquired : Attempted
  again : Attempted
  stopped : Attempted
  crashed : Attempted

-- The second Create: any error of it is retried.
unfoldable pub last_create : Created × Held → Attempted × Held
last_create (created, held) = (acquired, held)
last_create (already_exists, held) = (again, held)
last_create (create_error, held) = (again, held)

-- checkExistingLockExpiry: whether the lock that was found is to be removed.
unfoldable pub is_stale : ℕ → ℕ → Expiry → Bool
is_stale timeout now unset = ltb 0 timeout
is_stale timeout now malformed = false
is_stale timeout now (expires t) = ltb (t * second) now

-- releaseLock, which logs the first owner reference before it deletes.
pub data Released : Type 0 where
  released : Released
  release_error : Released
  no_owner : Released

unfoldable pub delete_logged : Bool → List ℕ → Held → Released × Held
delete_logged delete_ok [] held = (no_owner, held)
delete_logged true (uid ∷ uids) held = (released, none)
delete_logged false (uid ∷ uids) held = (release_error, held)

unfoldable pub release_lock : Bool → ConfigMap → Held → Released × Held
unfolding delete_logged
release_lock delete_ok cm held = delete_logged delete_ok cm.owners held

module _ (l : Lock) (start now : ℕ) (server : Server) where
  -- The rest of the attempt once an existing lock is checked.
  unfoldable pub finish_attempt : Held → Attempted × Held
  unfolding last_create
  finish_attempt held =
      if ltb 0 l.timeout && ltb (start + l.timeout) now
      then (stopped, held)
      else last_create
          (create server.create_again_ok (new_config_map l start) (server.before_create held))

  unfoldable pub after_release : Released × Held → Attempted × Held
  after_release (released, held) = finish_attempt held
  after_release (release_error, held) = (again, held)
  after_release (no_owner, held) = (crashed, held)

  unfoldable pub check_existing : Held → Attempted × Held
  unfolding after_release last_create
  check_existing none =
      last_create
        (create server.create_again_ok (new_config_map l start) (server.before_create none))
  check_existing (some cm) =
      if is_stale l.timeout now cm.expiry
      then after_release (release_lock server.delete_ok cm (server.before_delete (some cm)))
      else finish_attempt (some cm)

  unfoldable pub after_create : Created × Held → Attempted × Held
  after_create (created, held) = (acquired, held)
  after_create (create_error, held) = (again, held)
  after_create (already_exists, held) =
      if server.get_ok
      then check_existing (server.before_get held)
      else (again, server.before_get held)

  -- The function that Acquire retries.
  unfoldable pub attempt : Held → Attempted × Held
  unfolding after_create
  attempt held =
      after_create (create server.create_ok (new_config_map l start) (server.before_attempt held))

unfoldable pub settle :
    Attempted × Held → (Held → Option (Attempted × Held)) → Option (Attempted × Held)
settle (again, held) rest = rest held
settle (acquired, held) rest = some (acquired, held)
settle (stopped, held) rest = some (stopped, held)
settle (crashed, held) rest = some (crashed, held)

-- Retry without a limit, which doubles its sleep, on fuel: `server` and `spent` are the API server and
-- the time that is spent in each attempt. `none` when the fuel runs out.
module _ (l : Lock) (start : ℕ) (server : ℕ → Server) (spent : ℕ → ℕ) where
  unfoldable pub retry : ℕ → ℕ → ℕ → ℕ → Held → Option (Attempted × Held)
  unfolding settle
  retry zero k sleep now held = none
  retry (suc fuel) k sleep now held =
      settle (attempt l start now (server k) held)
        (retry fuel (suc k) (2 * sleep) (now + spent k + sleep))

  -- Acquire, once the own pod is known.
  unfoldable pub acquire : ℕ → Held → Option (Attempted × Held)
  acquire fuel held = retry fuel 0 second start held

-- What Release says.
pub data ReleaseResult : Type 0 where
  release_ok : ReleaseResult
  lookup_failed : ReleaseResult
  malformed_owners : ReleaseResult
  not_owner : ReleaseResult
  delete_failed : ReleaseResult

unfoldable pub release_owned : Released × Held → ReleaseResult × Held
release_owned (released, held) = (release_ok, held)
release_owned (release_error, held) = (delete_failed, held)
release_owned (no_owner, held) = (delete_failed, held)

unfoldable pub owned_by : ℕ → Bool → ConfigMap → List ℕ → Held → ReleaseResult × Held
unfolding release_owned
owned_by pod delete_ok cm [] held = (malformed_owners, held)
owned_by pod delete_ok cm (uid ∷ v ∷ uids) held = (malformed_owners, held)
owned_by pod delete_ok cm (uid ∷ []) held =
    if uid == pod then release_owned (release_lock delete_ok cm held) else (not_owner, held)

-- Release, where nobody else acts between its two calls.
unfoldable pub release : Lock → Bool → Bool → Held → ReleaseResult × Held
unfolding owned_by
release l get_ok delete_ok none = (if get_ok then release_ok else lookup_failed, none)
release l get_ok delete_ok (some cm) =
    if get_ok then owned_by l.pod delete_ok cm cm.owners (some cm) else (lookup_failed, some cm)
