-- ===== src/ThreadPool.antt =====
-- thread/thread_pool/thread_pool.c: the pool's record and its operations. An operation of a thread
-- is cut at each point where the thread gives up a lock: each piece is one function here.
-- Pointers and thread ids are numbers, 0 is NULL; a task's function pointer is the number `function`.
pub mod Queue
pub mod System
pub mod Resize
pub mod Invariant
pub mod Pieces
pub mod Order
pub mod Runs
pub mod Shutdown
mod Examples
use advanced_programming_in.Base.{
  ℕ, zero, suc, ◌+◌, ◌-◌, ◌*◌, ◌%◌, Bool, true, false, not, ◌&&◌, ◌||◌, Option, none, some, List,
  [], ◌∷◌, ◌++◌, get_or, set, ltb, leb, ◌==◌, if◌then◌else◌,
}

-- #define MIN_WAIT_TASK_NUM, DEFAULT_THREAD_VARY
abbrev pub min_wait_task_num : ℕ
min_wait_task_num = 10

abbrev pub default_thread_vary : ℕ
default_thread_vary = 10

-- threadpool_task_t
pub record Task : Type 0 where
  pub function : ℕ
  pub arg : ℕ

abbrev pub null_task : Task
null_task = record { function = 0; arg = 0 }

-- struct threadpool_t, without the locks, the condition variables and the manager's thread id.
pub record Pool : Type 0 where
  pub threads : List ℕ
  pub task_queue : List Task
  pub min_thr_num : ℕ
  pub max_thr_num : ℕ
  pub live_thr_num : ℕ
  pub busy_thr_num : ℕ
  pub wait_exit_thr_num : ℕ
  pub queue_front : ℕ
  pub queue_rear : ℕ
  pub queue_size : ℕ
  pub queue_max_size : ℕ
  pub shutdown : Bool

-- What the calls in threadpool_create give: the memory that malloc returns with its old content,
-- whether the locks and condition variables are set up, and the ids of the threads started.
pub record Allocation : Type 0 where
  pub old_wait_exit : ℕ
  pub threads : Option (List ℕ)
  pub task_queue : Option (List Task)
  pub locks_ready : Bool
  pub tid : ℕ → ℕ

-- for (i = 0; i < min_thr_num; i++) pthread_create(&pool->threads[i], ...)
start_threads : (rounds i : ℕ) → (ℕ → ℕ) → List ℕ → List ℕ
start_threads zero i tid ts = ts
start_threads (suc k) i tid ts = start_threads k (i + 1) tid (set ts i (tid i))

-- The memset clears the first sizeof(pointer) bytes, one thread id. wait_exit_thr_num is not set.
init_pool : (min max queue_max : ℕ) → Allocation → List ℕ → List Task → Pool
unfolding start_threads
init_pool min max queue_max m ts queue = record {
  threads = start_threads min 0 m.tid (set ts 0 0);
  task_queue = queue;
  min_thr_num = min;
  max_thr_num = max;
  live_thr_num = min;
  busy_thr_num = 0;
  wait_exit_thr_num = m.old_wait_exit;
  queue_front = 0;
  queue_rear = 0;
  queue_size = 0;
  queue_max_size = queue_max;
  shutdown = false;
}

-- threadpool_create; `none` for the pool itself is a malloc that fails, the result `none` is NULL.
pub threadpool_create : (min max queue_max : ℕ) → Option Allocation → Option Pool
unfolding init_pool
threadpool_create min max queue_max none = none
threadpool_create min max queue_max (some m) = elim m.threads [
  | none ↦ none
  | some ts ↦ elim m.task_queue [
    | none ↦ none
    | some queue ↦ if m.locks_ready then some (init_pool min max queue_max m ts queue) else none
  ]
]

-- Where a thread inside threadpool_add stands: before the lock, in pthread_cond_wait, behind the
-- unlock of the shutdown test, and returned.
pub data Adder : Type 0 where
  entering : Task → Adder
  waiting : Task → Adder
  unlocked : Task → Adder
  returned : Task → Adder

-- The writes of threadpool_add, and the pointers that it frees: a queue cell's old argument.
pub add_store : Pool → Task → Pool × List ℕ
add_store p t =
    let old = (get_or p.task_queue p.queue_rear null_task).arg in
    (
      record p {
        task_queue = set p.task_queue p.queue_rear t;
        queue_rear = (p.queue_rear + 1) % p.queue_max_size;
        queue_size = p.queue_size + 1;
      },
      if old == 0 then [] else old ∷ [],
    )

-- threadpool_add from the lock on, and from a return of pthread_cond_wait on. After a shutdown it
-- unlocks and goes on without a return.
pub add_locked : Pool → Task → Pool × Adder × List ℕ
add_locked p t =
    if (p.queue_size == p.queue_max_size) && not p.shutdown
    then (p, Adder.waiting t, [])
    else if p.shutdown
    then (p, Adder.unlocked t, [])
    else (let (p', freed) = add_store p t in (p', Adder.returned t, freed))

-- Where a worker stands: at the head of its loop, in pthread_cond_wait, with a task before and
-- after it counts itself as busy, and ended in either of the two ways.
pub data Worker : Type 0 where
  looping : Worker
  waiting : Worker
  got : Task → Worker
  working : Task → Worker
  retired : Worker
  shut_down : Worker

take_task : Pool → Pool × Worker
take_task p = (
  record p { queue_front = (p.queue_front + 1) % p.queue_max_size; queue_size = p.queue_size - 1 },
  Worker.got (get_or p.task_queue p.queue_front null_task),
)

-- threadpool_thread from the lock to the unlock, or to pthread_cond_wait.
pub worker_enter : Pool → Pool × Worker
worker_enter p =
    if (p.queue_size == 0) && not p.shutdown
    then (p, Worker.waiting)
    else if p.shutdown
    then (p, Worker.shut_down)
    else take_task p

-- threadpool_thread from a return of pthread_cond_wait on.
pub worker_wake : Pool → Pool × Worker
worker_wake p =
    if ltb 0 p.wait_exit_thr_num
    then (let p' = record p { wait_exit_thr_num = p.wait_exit_thr_num - 1 } in
        if ltb p.min_thr_num p.live_thr_num
        then (record p' { live_thr_num = p.live_thr_num - 1 }, Worker.retired)
        else worker_enter p')
    else worker_enter p

-- The two updates of busy_thr_num around the task's call.
pub worker_begin : Pool → Pool
worker_begin p = record p { busy_thr_num = p.busy_thr_num + 1 }

pub worker_finish : Pool → Pool
worker_finish p = record p { busy_thr_num = p.busy_thr_num - 1 }

-- Where adjust_thread stands, with the values that it has read.
pub data Manager : Type 0 where
  checking : Manager
  sampling : Manager
  counting : (queue_size live : ℕ) → Manager
  growing : (queue_size live busy : ℕ) → Manager
  trimming : (live busy : ℕ) → Manager
  finished : Manager

pub manager_check : Pool → Manager
manager_check p = if p.shutdown then finished else sampling

pub manager_sample : Pool → Manager
manager_sample p = counting p.queue_size p.live_thr_num

pub manager_count : Pool → (queue_size live : ℕ) → Manager
manager_count p queue_size live = growing queue_size live p.busy_thr_num

pub record Growth : Type 0 where
  pub threads : List ℕ
  pub add : ℕ
  pub live : ℕ

-- threads[i] == 0 || !is_thread_alive(threads[i]); pthread_kill is the parameter `alive`.
pub is_free_slot : (alive : ℕ → Bool) → List ℕ → ℕ → Bool
is_free_slot alive ts i = (get_or ts i 0 == 0) || not (alive (get_or ts i 0))

grow_slot : (alive : ℕ → Bool) (tid : ℕ → ℕ) → ℕ → Growth → Growth
grow_slot alive tid i g =
    if is_free_slot alive g.threads i
    then record { threads = set g.threads i (tid g.add); add = g.add + 1; live = g.live + 1 }
    else g

-- The for loop over the slots; `rounds` is max_thr_num - i.
pub grow_loop : (alive : ℕ → Bool) (tid : ℕ → ℕ) (max rounds i : ℕ) → Growth → Growth
grow_loop alive tid max zero i g = g
grow_loop alive tid max (suc k) i g =
    let rest = grow_loop alive tid max k (i + 1) (grow_slot alive tid i g) in
    if ltb g.add default_thread_vary && ltb g.live max then rest else g

-- The first half of the adjustment: the pool after it, and the number of threads started.
pub manager_grow : (alive : ℕ → Bool) (tid : ℕ → ℕ) → Pool → (queue_size live : ℕ) → Pool × ℕ
manager_grow alive tid p queue_size live =
    if leb min_wait_task_num queue_size && ltb live p.max_thr_num
    then (let g =
          grow_loop alive tid p.max_thr_num p.max_thr_num 0
            (record { threads = p.threads; add = 0; live = p.live_thr_num }) in
        (record p { threads = g.threads; live_thr_num = g.live }, g.add))
    else (p, 0)

-- The second half.
pub manager_trim : Pool → (live busy : ℕ) → Pool
manager_trim p live busy =
    if ltb (busy * 2) live && ltb p.min_thr_num live
    then record p { wait_exit_thr_num = default_thread_vary }
    else p

-- The write of threadpool_destroy, before it joins the threads.
pub destroy_request : Pool → Pool
destroy_request p = record p { shutdown = true }

-- threadpool_all_threadnum and threadpool_busy_threadnum
pub threadpool_all_threadnum : Pool → ℕ
threadpool_all_threadnum p = p.live_thr_num

pub threadpool_busy_threadnum : Pool → ℕ
threadpool_busy_threadnum p = p.busy_thr_num
