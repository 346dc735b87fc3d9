-- ===== src/Secrets/Tests.antt =====
-- Tests of the secrets engine and its locks on concrete states.
use webmesh_vdi.Prelude.{ℕ, ◌≤◌, ◌*◌, ◌≡◌, ◌⊎◌, refl, true, false, none, some, List, [], ◌∷◌, arith}
use webmesh_vdi.Prelude.Bytes.{Bytes, codes}
use webmesh_vdi.Secrets.Store.{found, Backend, Cluster, k8s_write, k8s_backend}
use webmesh_vdi.Secrets.Engine.{
  CacheItem, Engine, appended, read_secret, read_cache, cached, write_secret, append_secret,
  append_to,
}
use webmesh_vdi.Secrets.Coherent.{
  Operation, do_read, do_append, do_write_map, Coherent, run, run_plain, run_refines,
}
use webmesh_vdi.Secrets.Kept.{k8s_backend-IsStore, append_secret-stale}
use webmesh_vdi.Secrets.Mutex.{
  idle, holding, Process, Step, enters, Reachable, starts, steps, holders, lock_call,
  Reachable-exclusive, Reachable-live, gives_up-stuck,
}
use webmesh_vdi.Secrets.Lock.{second, Lock, expires, Held, Server, Attempted, acquire}
use webmesh_vdi.Secrets.Acquired.{IsQuiet, Ended, slept, acquire-ends}

-- Map secrets as the text of their JSON.
abbrev text_backend : Backend Cluster Bytes
text_backend = k8s_backend (λ m. some m) (λ s. some s)

abbrev one_user : Cluster
one_user = record { entries = (codes "users", codes "admin") ∷ []; get_ok = true; update_ok = true }

abbrev cold : Engine Cluster Bytes
cold = record { state = one_user; cache = λ name. none; cache_ttl = 3600 }

abbrev some_operations : List (Operation Bytes × ℕ)
some_operations =
    (do_read (codes "users") true, 10)
    ∷ (do_append (codes "users") (codes "bob"), 20)
    ∷ (do_write_map (codes "otp") (some (codes "{}")), 30)
    ∷ (do_read (codes "users") true, 40)
    ∷ []

cold-Coherent : Coherent text_backend cold
unfolding Coherent
cold-Coherent name item v c w = cc c

run_refines_example :
    ((run text_backend some_operations cold).0
      ≡ (run_plain text_backend some_operations one_user).0)
    × ((run text_backend some_operations cold).1.state
        ≡ (run_plain text_backend some_operations one_user).1)
    × Coherent text_backend (run text_backend some_operations cold).1
run_refines_example =
    run_refines text_backend (k8s_backend-IsStore (λ m. some m) (λ s. some s)) some_operations cold
      cold-Coherent

-- A peer has added a user that the cache does not have.
abbrev old_item : CacheItem Bytes
old_item = record { contents = some (codes "admin"); contents_map = none; expires_at = 3600 }

abbrev stale : Engine Cluster Bytes
stale = record {
  state = record {
    entries = (codes "users", codes "admin,eve") ∷ [];
    get_ok = true;
    update_ok = true;
  };
  cache = λ name. some old_item;
  cache_ttl = 3600;
}

stale_append-done : (append_secret text_backend (codes "users") (codes "bob") 10 stale).0 ≡ true
unfolding append_secret append_to read_secret read_cache cached write_secret k8s_backend k8s_write
stale_append-done = refl

append_secret-stale_example :
    text_backend.read
      (codes "users")
      (append_secret text_backend (codes "users") (codes "bob") 10 stale).1.state
    ≡ found (appended (codes "admin") (codes "bob"))
append_secret-stale_example =
    append_secret-stale text_backend (k8s_backend-IsStore (λ m. some m) (λ s. some s)) stale
      (codes "users") (codes "bob") (codes "admin") 10 old_item refl refl (omega arith)
      stale_append-done

abbrev two_idle : Process
two_idle = record { threads = idle ∷ idle ∷ []; guard = record { mux = false; remote = false } }

abbrev one_holding : Process
one_holding = record { threads = holding ∷ idle ∷ []; guard = record { mux = true; remote = true } }

two_idle-Reachable : Reachable 2 two_idle
unfolding holders
two_idle-Reachable = starts two_idle refl refl

one_holding-Reachable : Reachable 2 one_holding
unfolding lock_call
one_holding-Reachable =
    steps two_idle one_holding two_idle-Reachable
      (enters [] (idle ∷ []) true record { mux = true; remote = true } refl refl refl)

Reachable-exclusive_example :
    (holders one_holding.threads ≤ 1)
    × (one_holding.guard.mux ≡ false → holders one_holding.threads ≡ 0)
Reachable-exclusive_example = Reachable-exclusive 2 one_holding one_holding-Reachable

alone-Reachable : Reachable 1 two_idle
unfolding holders
alone-Reachable = starts two_idle refl refl

Reachable-live_example :
    ((t : Process) × Step 1 two_idle t × (t.threads ≡ holding ∷ idle ∷ []))
    ⊎ ((t : Process) × Step 1 two_idle t × (t.guard.mux ≡ false))
Reachable-live_example = Reachable-live 1 two_idle [] (idle ∷ []) (omega arith) alone-Reachable refl

abbrev given_up : Process
given_up = record { threads = idle ∷ idle ∷ []; guard = record { mux = true; remote = true } }

gives_up-stuck_example : ¬ Step 2 given_up one_holding
unfolding lock_call
gives_up-stuck_example = gives_up-stuck 2 two_idle given_up one_holding two_idle-Reachable refl refl

abbrev quiet_server : Server
quiet_server = record {
  create_ok = true;
  get_ok = true;
  delete_ok = true;
  create_again_ok = true;
  before_attempt = λ held. held;
  before_get = λ held. held;
  before_delete = λ held. held;
  before_create = λ held. held;
}

quiet_server-IsQuiet : IsQuiet quiet_server
quiet_server-IsQuiet = record {
  create_answers = refl;
  get_answers = refl;
  delete_answers = refl;
  get_undisturbed = λ held. refl;
}

abbrev api_lock : Lock
api_lock = record { pod = 7; timeout = 15 * second }

-- A lock of another pod that runs out after a minute.
abbrev other_lock : Held
other_lock = some (record { owners = 8 ∷ []; expiry = expires 60 })

acquire-ends_example :
    (r : Attempted × Held) × (acquire api_lock 0 (λ k. quiet_server) (λ k. 0) 6 other_lock ≡ some r)
    × Ended api_lock 0 r
unfolding slept
acquire-ends_example =
    acquire-ends api_lock 0 (λ k. quiet_server) (λ k. 0) 5 other_lock (λ i. quiet_server-IsQuiet)
      (omega arith) (omega arith)
