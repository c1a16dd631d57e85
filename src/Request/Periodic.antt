-- ===== src/Request/Periodic.antt =====
-- PeriodicTaskExecutor of prod/native/libcommon/code/PeriodicTaskExecutor.h: the thread that runs the
-- periodic tasks, step by step, with the calls of other threads between its steps. A step is what the
-- thread does from one place where it holds or waits for the mutex to the next, or one task.
use opentelemetry_php_distro.Prelude.{
  ℕ, zero, suc, ◌+◌, ◌≡◌, refl, ap, sym, ◌∙◌, Bool, true, false, not, List, [], ◌∷◌, ◌++◌,
  append-nil, append_assoc, length, all, arith, if◌then◌else◌,
}

-- Where the thread stands: before workerInit_, at the condition, in the sleep, in its snapshot of the
-- tasks with those that are left, or at its end.
pub data Position : Type 0 where
  starting waiting sleeping : Position
  running : List ℕ → Position
  ended : Position

-- The executor, and what its thread has done: the calls of workerInit_, the snapshots, the tasks.
pub record Executor : Type 0 where
  pub sleep_interval : ℕ
  pub worker_init : Bool
  pub periodic_tasks : List ℕ
  pub working : Bool
  pub resumed : Bool
  pub position : Position
  pub inits : ℕ
  pub rounds : ℕ
  pub ran : List ℕ

-- The constructor
abbrev pub new_executor : Bool → List ℕ → Executor
new_executor worker_init tasks = record {
  sleep_interval = 20;
  worker_init = worker_init;
  periodic_tasks = tasks;
  working = true;
  resumed = false;
  position = starting;
  inits = 0;
  rounds = 0;
  ran = [];
}

-- work
unfoldable pub step_from : Position → Executor → Executor
step_from starting s = record s {
  position = waiting;
  inits = if s.worker_init then suc s.inits else s.inits;
}
step_from waiting s =
    if not s.working
    then record s { position = ended }
    else if s.resumed
    then record s { position = sleeping }
    else s
step_from sleeping s = record s { position = running s.periodic_tasks; rounds = suc s.rounds }
step_from (running []) s = record s { position = waiting }
step_from (running (task ∷ tasks)) s = record s {
  position = running tasks;
  ran = s.ran ++ (task ∷ []);
}
step_from ended s = s

unfoldable pub work : ℕ → Executor → Executor
unfolding step_from
work zero s = s
work (suc n) s = work n (step_from s.position s)

unfoldable pub add_task : ℕ → Executor → Executor
add_task task s = record s { periodic_tasks = s.periodic_tasks ++ (task ∷ []) }

unfoldable pub resume_periodic_tasks : Executor → Executor
resume_periodic_tasks s = record s { resumed = true }

unfoldable pub suspend_periodic_tasks : Executor → Executor
suspend_periodic_tasks s = record s { resumed = false }

unfoldable pub shutdown : Executor → Executor
shutdown s = record s { working = false }

unfoldable pub set_interval : ℕ → Executor → Executor
set_interval interval s = record s { sleep_interval = interval }

-- The steps that the thread makes at most after a shutdown.
abbrev pub steps_left : Position → List ℕ → ℕ
steps_left starting tasks = 2
steps_left waiting tasks = 1
steps_left sleeping tasks = suc (suc (suc (length tasks)))
steps_left (running left) tasks = suc (suc (length left))
steps_left ended tasks = 0

-- The thread is joined: it goes on up to its end.
unfoldable pub prefork : Executor → Executor
unfolding shutdown work
prefork s = work (steps_left s.position s.periodic_tasks) (shutdown s)

unfoldable pub postfork : Executor → Executor
postfork s = record s { working = true; position = starting }

-- The tasks that a thread still runs when it is shut down.
abbrev pub left_to_run : Position → List ℕ → List ℕ
left_to_run starting tasks = []
left_to_run waiting tasks = []
left_to_run sleeping tasks = tasks
left_to_run (running left) tasks = left
left_to_run ended tasks = []

abbrev stopped : ℕ → Bool → List ℕ → Bool → Position → ℕ → ℕ → List ℕ → Executor
stopped interval init tasks resumed position inits rounds ran = record {
  sleep_interval = interval;
  worker_init = init;
  periodic_tasks = tasks;
  working = false;
  resumed = resumed;
  position = position;
  inits = inits;
  rounds = rounds;
  ran = ran;
}

work_running :
    (interval : ℕ) (init : Bool) (tasks : List ℕ) (resumed : Bool) (left : List ℕ)
    (inits rounds : ℕ) (ran : List ℕ)
    → work
        (suc (suc (length left)))
        (stopped interval init tasks resumed (running left) inits rounds ran)
      ≡ stopped interval init tasks resumed ended inits rounds (ran ++ left)
unfolding work step_from
work_running interval init tasks resumed [] inits rounds ran =
    ap (stopped interval init tasks resumed ended inits rounds) (sym (append-nil ran))
work_running interval init tasks resumed (task ∷ left) inits rounds ran =
    work_running interval init tasks resumed left inits rounds (ran ++ (task ∷ []))
    ∙ ap (stopped interval init tasks resumed ended inits rounds)
        (append_assoc ran (task ∷ []) left)

-- What a thread leaves that is joined.
abbrev IsJoined : Executor → Executor → Type 0
IsJoined s after =
    (after.position ≡ ended)
    × (after.ran ≡ s.ran ++ left_to_run s.position s.periodic_tasks)
    × (after.resumed ≡ s.resumed)
    × (after.periodic_tasks ≡ s.periodic_tasks)

work-IsJoined :
    (interval : ℕ) (init : Bool) (tasks : List ℕ) (resumed : Bool) (position : Position)
    (inits rounds : ℕ) (ran : List ℕ)
    → let s = stopped interval init tasks resumed position inits rounds ran in
      IsJoined s (work (steps_left position tasks) s)
unfolding work step_from
work-IsJoined interval init tasks resumed starting inits rounds ran =
    (refl, sym (append-nil ran), refl, refl)
work-IsJoined interval init tasks resumed waiting inits rounds ran =
    (refl, sym (append-nil ran), refl, refl)
work-IsJoined interval init tasks resumed sleeping inits rounds ran =
    let e = work_running interval init tasks resumed tasks inits (suc rounds) ran in
    (ap (λ s. s.position) e, ap (λ s. s.ran) e, ap (λ s. s.resumed) e, ap (λ s. s.periodic_tasks) e)
work-IsJoined interval init tasks resumed (running left) inits rounds ran =
    let e = work_running interval init tasks resumed left inits rounds ran in
    (ap (λ s. s.position) e, ap (λ s. s.ran) e, ap (λ s. s.resumed) e, ap (λ s. s.periodic_tasks) e)
work-IsJoined interval init tasks resumed ended inits rounds ran =
    (refl, sym (append-nil ran), refl, refl)

-- prefork returns, because the thread then comes to its end; before, it runs what is left of the
-- snapshot that it has, or all tasks if it sleeps, and nothing otherwise. After the fork there is a
-- thread at its beginning again, with the tasks that there were, suspended or resumed as before.
pub fork_lem :
    (s : Executor)
    → ((prefork s).position ≡ ended)
      × ((prefork s).ran ≡ s.ran ++ left_to_run s.position s.periodic_tasks)
      × ((postfork (prefork s)).position ≡ starting)
      × ((postfork (prefork s)).working ≡ true)
      × ((postfork (prefork s)).resumed ≡ s.resumed)
      × ((postfork (prefork s)).periodic_tasks ≡ s.periodic_tasks)
unfolding prefork postfork shutdown work step_from
fork_lem s =
    let (end, ran, resumed, tasks) =
      work-IsJoined s.sleep_interval s.worker_init s.periodic_tasks s.resumed s.position s.inits
        s.rounds s.ran in
    (end, ran, refl, refl, resumed, tasks)

-- What other threads call, and a step of the thread.
pub data Call : Type 0 where
  add : ℕ → Call
  interval : ℕ → Call
  resume suspend stop thread_step : Call

abbrev pub run_call : Call → Executor → Executor
run_call (add task) s = add_task task s
run_call (interval ms) s = set_interval ms s
run_call stop s = shutdown s
run_call resume s = resume_periodic_tasks s
run_call suspend s = suspend_periodic_tasks s
run_call thread_step s = step_from s.position s

abbrev pub run_calls : List Call → Executor → Executor
run_calls [] s = s
run_calls (c ∷ calls) s = run_calls calls (run_call c s)

abbrev pub is_no_resume : Call → Bool
is_no_resume (add task) = true
is_no_resume resume = false
is_no_resume suspend = true
is_no_resume thread_step = true
is_no_resume stop = true
is_no_resume (interval ms) = true

-- A thread in its sleep still takes a snapshot.
abbrev pub due : Position → ℕ
due starting = 0
due waiting = 0
due sleeping = 1
due (running left) = 0
due ended = 0

step_from-due :
    (p : Position) (s : Executor)
    → s.position ≡ p
    → s.resumed ≡ false
    → ((step_from p s).resumed ≡ false)
      × ((step_from p s).rounds + due (step_from p s).position ≡ s.rounds + due p)
unfolding step_from
step_from-due starting s at h = ground arith
step_from-due waiting s at h = ground arith
step_from-due sleeping s at h = ground arith
step_from-due (running []) s at h = ground arith
step_from-due (running (task ∷ tasks)) s at h = ground arith
step_from-due ended s at h = ground arith

-- While nobody resumes the periodic tasks, in any interleaving of the steps of the thread with calls
-- of addTask, setInterval, suspendPeriodicTasks and shutdown, a thread in its sleep takes one more snapshot of the tasks, or
-- will still take it, and a thread at another place takes none.
pub run_calls-suspended :
    (calls : List Call) (s : Executor)
    → s.resumed ≡ false
    → all is_no_resume calls ≡ true
    → (run_calls calls s).rounds + due (run_calls calls s).position ≡ s.rounds + due s.position
unfolding add_task suspend_periodic_tasks set_interval shutdown
run_calls-suspended [] s h quiet = refl
run_calls-suspended (add task ∷ calls) s h quiet =
    run_calls-suspended calls (add_task task s) h quiet
run_calls-suspended (resume ∷ calls) s h quiet = absurd (cc)
run_calls-suspended (suspend ∷ calls) s h quiet =
    run_calls-suspended calls (suspend_periodic_tasks s) refl quiet
run_calls-suspended (interval ms ∷ calls) s h quiet =
    run_calls-suspended calls (set_interval ms s) h quiet
run_calls-suspended (stop ∷ calls) s h quiet = run_calls-suspended calls (shutdown s) h quiet
run_calls-suspended (thread_step ∷ calls) s h quiet =
    let (still, same) = step_from-due s.position s refl h in
    run_calls-suspended calls (step_from s.position s) still quiet ∙ same
