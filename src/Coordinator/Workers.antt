-- ===== src/Coordinator/Workers.antt =====
-- WorkerRegistry of prod/native/libcommon/code/coordinator/WorkerRegistry.h, and the periodic task
-- of CoordinatorProcess::setupPeriodicTasks. The set of workers is a list; whether a process is there
-- (`kill` with ESRCH as its error) is the parameter `is_gone`.
use opentelemetry_php_distro.Prelude.{
  ℕ, ◌-◌, ◌≡◌, refl, ap, Bool, true, false, not, ◌&&◌, ◌||◌, List, [], ◌∷◌, ◌==◌, leb, ltb, length,
  ==_iff, arith, inl, inr, Bool-cases, if◌then◌else◌, any,
}
use opentelemetry_php_distro.Coordinator.Chunks.{Processor, cleanup_abandoned_messages}

unfoldable pub has_worker : ℕ → List ℕ → Bool
has_worker pid [] = false
has_worker pid (w ∷ ws) = w == pid || has_worker pid ws

-- emplace into a set
unfoldable pub register_worker : ℕ → List ℕ → List ℕ
register_worker pid ws = if has_worker pid ws then ws else pid ∷ ws

unfoldable pub unregister_worker : ℕ → List ℕ → List ℕ
unregister_worker pid [] = []
unregister_worker pid (w ∷ ws) =
    let rest = unregister_worker pid ws in if w == pid then rest else w ∷ rest

unfoldable pub verify_workers_alive : (ℕ → Bool) → List ℕ → List ℕ
verify_workers_alive is_gone [] = []
verify_workers_alive is_gone (w ∷ ws) =
    let rest = verify_workers_alive is_gone ws in if is_gone w then rest else w ∷ rest

abbrev pub get_worker_count : List ℕ → ℕ
get_worker_count ws = length ws

-- The coordinator as its periodic task sees it.
pub record Coordinator : Type 0 where
  pub working : Bool
  pub parent_process_id : ℕ
  pub workers : List ℕ
  pub processor : Processor
  pub last_cleanup_time : ℕ

abbrev clean_up_lost_messages_interval : ℕ
clean_up_lost_messages_interval = 60000

abbrev max_age : ℕ
max_age = 10000

-- The check of the parent process
unfoldable pub check_parent : ℕ → (ℕ → Bool) → Coordinator → Coordinator
check_parent ppid is_gone c =
    let alive = verify_workers_alive is_gone c.workers in
    if ppid == c.parent_process_id
    then c
    else if ltb 0 (get_worker_count alive)
    then record c { workers = alive }
    else record c { workers = alive; working = false }

unfoldable pub check_cleanup : ℕ → Coordinator → Coordinator
check_cleanup now c =
    if leb clean_up_lost_messages_interval (now - c.last_cleanup_time)
    then record c {
      processor = cleanup_abandoned_messages now max_age c.processor;
      last_cleanup_time = now;
    }
    else c

unfoldable pub periodic_task : ℕ → ℕ → (ℕ → Bool) → Coordinator → Coordinator
periodic_task now ppid is_gone c = check_cleanup now (check_parent ppid is_gone c)

-- The registry is a set: no worker stands in it twice.
abbrev pub IsSetOf : List ℕ → Type 0
IsSetOf [] = Unit {0}
IsSetOf (w ∷ ws) = (has_worker w ws ≡ false) × IsSetOf ws

has-unregister :
    (pid other : ℕ) (ws : List ℕ)
    → has_worker other (unregister_worker pid ws)
      ≡ (if pid == other then false else has_worker other ws)
unfolding has_worker unregister_worker
has-unregister pid other [] = ground arith
has-unregister pid other (w ∷ ws) = ground (arith, has-unregister pid other ws)

has-verify :
    (is_gone : ℕ → Bool) (pid : ℕ) (ws : List ℕ)
    → has_worker pid (verify_workers_alive is_gone ws) ≡ (not (is_gone pid) && has_worker pid ws)
unfolding has_worker verify_workers_alive
has-verify is_gone pid [] = ground arith
has-verify is_gone pid (w ∷ ws) = elim (Bool-cases (w == pid)) [
  | inl e ↦
      let q : w ≡ pid = (==_iff w pid).0 e in
      let g : is_gone w ≡ is_gone pid = ap is_gone q in ground (arith, has-verify is_gone pid ws)
  | inr e ↦ ground (arith, has-verify is_gone pid ws)
]

unregister-IsSetOf : (pid : ℕ) (ws : List ℕ) → IsSetOf ws → IsSetOf (unregister_worker pid ws)
unfolding unregister_worker
unregister-IsSetOf pid [] s = tt
unregister-IsSetOf pid (w ∷ ws) s =
    ground (arith, has-unregister pid w ws, unregister-IsSetOf pid ws s.1)

verify-IsSetOf :
    (is_gone : ℕ → Bool) (ws : List ℕ) → IsSetOf ws → IsSetOf (verify_workers_alive is_gone ws)
unfolding verify_workers_alive
verify-IsSetOf is_gone [] s = tt
verify-IsSetOf is_gone (w ∷ ws) s =
    ground (arith, has-verify is_gone w ws, verify-IsSetOf is_gone ws s.1)

-- The registry is a set of process ids: registering adds one, unregistering takes it out, the
-- verification takes out those that are gone, nothing else changes, and no worker is counted twice.
pub registry_lem :
    (is_gone : ℕ → Bool) (pid other : ℕ) (ws : List ℕ)
    → IsSetOf ws
    → (has_worker other (register_worker pid ws)
        ≡ (if pid == other then true else has_worker other ws))
      × (has_worker other (unregister_worker pid ws)
          ≡ (if pid == other then false else has_worker other ws))
      × (has_worker other (verify_workers_alive is_gone ws)
          ≡ (not (is_gone other) && has_worker other ws))
      × IsSetOf (register_worker pid ws)
      × IsSetOf (unregister_worker pid ws)
      × IsSetOf (verify_workers_alive is_gone ws)
unfolding register_worker has_worker
registry_lem is_gone pid other ws s = (
  elim (Bool-cases (pid == other)) [
    | inl e ↦
        let q : pid ≡ other = (==_iff pid other).0 e in
        let g : has_worker pid ws ≡ has_worker other ws = ap (λ x. has_worker x ws) q in
        ground arith
    | inr e ↦ ground arith
  ],
  has-unregister pid other ws,
  has-verify is_gone other ws,
  ground arith,
  unregister-IsSetOf pid ws s,
  verify-IsSetOf is_gone ws s,
)

some_alive :
    (is_gone : ℕ → Bool) (ws : List ℕ)
    → ltb 0 (get_worker_count (verify_workers_alive is_gone ws)) ≡ any (λ w. not (is_gone w)) ws
unfolding verify_workers_alive
some_alive is_gone [] = refl
some_alive is_gone (w ∷ ws) = ground (arith, some_alive is_gone ws)

-- The periodic task stops the coordinator exactly when its parent is another process than at the
-- start and no registered worker is alive.
pub periodic_task-working :
    (now ppid : ℕ) (is_gone : ℕ → Bool) (c : Coordinator)
    → (periodic_task now ppid is_gone c).working
      ≡ (c.working && (ppid == c.parent_process_id || any (λ w. not (is_gone w)) c.workers))
unfolding periodic_task check_parent check_cleanup
periodic_task-working now ppid is_gone c = ground (arith, some_alive is_gone c.workers)
