-- ===== src/ThreadPool/Examples.antt =====
-- thread/thread_pool/thread_pool.c: tests, and the theorems at concrete pools.
use Prim.Native.Nat.{min}
use advanced_programming_in.Base.{
  some, ℕ, ◌+◌, ◌-◌, ◌≤◌, ◌≡◌, refl, Bool, true, false, some, [], ◌∷◌, ◌++◌, arith, length, get_or,
  replicate, ltb, leb, if◌then◌else◌, ◌&&◌,
}
use advanced_programming_in.Ring.{window}
use advanced_programming_in.ThreadPool.{
  Pool, Task, null_task, Allocation, start_threads, init_pool, threadpool_create, add_store,
  add_locked, Adder, take_task, worker_enter, manager_grow, destroy_request,
}
use advanced_programming_in.ThreadPool.Queue.{contents, IsRing, Enqueues, Dequeues, queue_lem}
use advanced_programming_in.ThreadPool.Resize.{free_slots, manager_grow_lem}
use advanced_programming_in.ThreadPool.System.{
  System, initial, after_add, after_worker, Step, Reach, here, next,
}
use advanced_programming_in.ThreadPool.Invariant.{IsCounted}
use advanced_programming_in.ThreadPool.Runs.{IsAllocated, Reach-IsCounted, tasks_in_order}
use advanced_programming_in.ThreadPool.Shutdown.{late_add_overflows}

abbrev task : ℕ → Task
task n = record { function = 7; arg = n }

-- Memory for five threads and three tasks.
abbrev memory : Allocation
memory = record {
  old_wait_exit = 0;
  threads = some (replicate 5 99);
  task_queue = some (replicate 3 null_task);
  locks_ready = true;
  tid = λ i. i + 100;
}

abbrev pool : Pool
pool = record {
  threads = 100 ∷ 101 ∷ 99 ∷ 99 ∷ 99 ∷ [];
  task_queue = replicate 3 null_task;
  min_thr_num = 2;
  max_thr_num = 5;
  live_thr_num = 2;
  busy_thr_num = 0;
  wait_exit_thr_num = 0;
  queue_front = 0;
  queue_rear = 0;
  queue_size = 0;
  queue_max_size = 3;
  shutdown = false;
}

created : threadpool_create 2 5 3 (some memory) ≡ some pool
unfolding threadpool_create init_pool start_threads
created = refl

allocated : IsAllocated 5 3 memory
allocated = record { slots = λ ts e. ground arith; cells = λ q e. ground arith }

-- A queue whose entries go round the end of the array: the tasks 3 and 4 in the cells 2 and 0.
abbrev wrapped : Pool
wrapped = record pool {
  task_queue = task 4 ∷ task 2 ∷ task 3 ∷ [];
  queue_front = 2;
  queue_rear = 1;
  queue_size = 2;
}

wrapped-IsRing : IsRing wrapped
wrapped-IsRing = record { room = refl; front = omega arith; size = omega arith; rear = omega arith }

wrapped-contents : contents wrapped ≡ task 3 ∷ task 4 ∷ []
unfolding window
wrapped-contents = refl

-- The call frees the argument of the task that stood in the cell before.
add_frees : (add_locked wrapped (task 5)).2 ≡ 2 ∷ []
unfolding add_locked add_store
add_frees = refl

queue_lem_example :
    Enqueues wrapped (task 5) (add_locked wrapped (task 5))
    × Dequeues wrapped (worker_enter wrapped)
queue_lem_example = queue_lem wrapped wrapped-IsRing (task 5) refl

abbrev alive : ℕ → Bool
alive t = ltb 99 t

manager_grow_lem_example :
    ((manager_grow alive (λ i. i + 200) pool 10 2).1 ≡ (
      if leb 10 10 && ltb 2 5 then min (free_slots alive pool.threads 5 0) (min 10 (5 - 2)) else 0))
    × ((manager_grow alive (λ i. i + 200) pool 10 2).0 ≡ record pool {
      threads = (manager_grow alive (λ i. i + 200) pool 10 2).0.threads;
      live_thr_num = 2 + (manager_grow alive (λ i. i + 200) pool 10 2).1;
    })
    × (2 + (manager_grow alive (λ i. i + 200) pool 10 2).1 ≤ 5)
manager_grow_lem_example = manager_grow_lem alive (λ i. i + 200) pool 10 2 (omega arith)

-- One task is added, a worker fetches it, and another thread destroys the pool.
abbrev called : System
called = record (initial pool 0) { adders = Adder.entering (task 1) ∷ [] }

abbrev added : System
added = after_add called 0 (task 1)

abbrev fetched : System
fetched = after_worker added 1 (worker_enter added.pool)

abbrev stopped : System
stopped = record fetched { pool = destroy_request fetched.pool }

fetched_reached : Reach (initial pool 0) fetched
fetched_reached =
    next (next (next here (Step.call (task 1))) (Step.add_enter 0 (task 1) refl))
      (Step.enter 1 refl)

fetched_task : fetched.taken ≡ task 1 ∷ []
unfolding add_locked add_store worker_enter take_task
fetched_task = refl

Reach-IsCounted_example : IsCounted fetched
Reach-IsCounted_example =
    Reach-IsCounted 2 5 3 memory pool allocated created (omega arith) (omega arith) 0 (omega arith)
      fetched_reached

tasks_in_order_example :
    (fetched.accepted ≡ fetched.taken ++ contents fetched.pool)
    × (length (contents fetched.pool) ≤ fetched.pool.queue_max_size)
unfolding add_locked add_store worker_enter take_task
tasks_in_order_example =
    tasks_in_order 2 5 3 memory pool allocated created (omega arith) (omega arith) 0 fetched_reached
      refl

-- The other worker finds the pool shut down.
abbrev ended : System
ended = after_worker stopped 0 (worker_enter stopped.pool)

abbrev full : Pool
full = record wrapped { queue_rear = 2; queue_size = 3; shutdown = true }

late_add_overflows_example :
    (add_locked full (task 5) ≡ (full, Adder.unlocked (task 5), []))
    × (get_or (add_store full (task 5)).0.task_queue 2 null_task ≡ task 5)
    × ((add_store full (task 5)).0.queue_size ≡ 3 + 1)
late_add_overflows_example =
    late_add_overflows full (task 5)
      (record { room = refl; front = omega arith; size = omega arith; rear = omega arith }) refl
      refl
