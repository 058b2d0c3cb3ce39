-- ===== src/MyThreadPool.antt =====
-- thread/mythreadpool/thread_pool.c and thread_pool.h: the second thread pool, its record and its
-- operations, cut where a thread gives up the lock. Thread ids and pointers are numbers, 0 is NULL.
pub mod System
pub mod Stuck
pub mod Locked
mod Examples
use advanced_programming_in.Base.{
  ℕ, zero, suc, ◌+◌, ◌-◌, ◌*◌, ◌%◌, Bool, true, false, not, ◌&&◌, Option, none, some, List, [],
  get_or, set, replicate, ltb, ◌==◌, if◌then◌else◌,
}

-- #define DERAULT_ADD_DEL_THREAD
abbrev pub default_add_del_thread : ℕ
default_add_del_thread = 4

-- threadpool_task
pub record Task : Type 0 where
  pub func : ℕ
  pub arg : ℕ

abbrev pub null_task : Task
null_task = record { func = 0; arg = 0 }

-- threadpool, without the locks, the condition variables and the manager's thread id.
pub record Pool : Type 0 where
  pub taskqueue : List Task
  pub threads_id : List ℕ
  pub min_thread_num : ℕ
  pub max_thread_num : ℕ
  pub cur_thread_num : ℕ
  pub cur_work_num : ℕ
  pub wait_exit_thread_num : ℕ
  pub taskqueue_front : ℕ
  pub taskqueue_tail : ℕ
  pub taskqueue_cur_size : ℕ
  pub taskqueue_max_size : ℕ
  pub shutdown : Bool

-- for(int i = 0; i < min_thr_num; ++i) pthread_create(&pool->threads_ID[i], ...)
start_threads : (rounds i : ℕ) → (ℕ → ℕ) → List ℕ → List ℕ
start_threads zero i tid ts = ts
start_threads (suc k) i tid ts = start_threads k (i + 1) tid (set ts i (tid i))

-- threadpool_create; malloc is taken to succeed, as the code does not look. `old_wait_exit` is what
-- the memory holds at wait_exit_thread_num, which is not set; `tid` gives the threads' ids.
pub threadpool_create : (min max queue_max old_wait_exit : ℕ) (tid : ℕ → ℕ) → Pool
unfolding start_threads
threadpool_create min max queue_max old_wait_exit tid = record {
  taskqueue = replicate queue_max null_task;
  threads_id = start_threads min 0 tid (replicate max 0);
  min_thread_num = min;
  max_thread_num = max;
  cur_thread_num = min;
  cur_work_num = 0;
  wait_exit_thread_num = old_wait_exit;
  taskqueue_front = 0;
  taskqueue_tail = 0;
  taskqueue_cur_size = 0;
  taskqueue_max_size = queue_max;
  shutdown = false;
}

-- Where a thread inside threadpool_addtask stands.
pub data Adder : Type 0 where
  entering : Task → Adder
  waiting : Task → Adder
  returned : Task → Adder

-- The write of the task and of the tail; taskqueue_cur_size is not written.
store_task : Pool → Task → Pool
store_task p t = record p {
  taskqueue = set p.taskqueue p.taskqueue_tail t;
  taskqueue_tail = (p.taskqueue_tail + 1) % p.taskqueue_max_size;
}

-- threadpool_addtask from the lock, or from a return of pthread_cond_wait, to the unlock or wait.
pub addtask_locked : Pool → Task → Pool × Adder
unfolding store_task
addtask_locked p t =
    if (p.taskqueue_cur_size == p.taskqueue_max_size) && not p.shutdown
    then (p, Adder.waiting t)
    else if p.shutdown
    then (p, Adder.returned t)
    else (store_task p t, Adder.returned t)

-- Where a worker in threadpool_runtask stands.
pub data Worker : Type 0 where
  looping : Worker
  waiting : Worker
  got : Task → Worker
  working : Task → Worker
  exited : Worker

take_task : Pool → Pool × Worker
take_task p = (
  record p {
    taskqueue_front = (p.taskqueue_front + 1) % p.taskqueue_max_size;
    taskqueue_cur_size = p.taskqueue_cur_size - 1;
  },
  Worker.got (get_or p.taskqueue p.taskqueue_front null_task),
)

-- The test of the inner loop and what follows it.
worker_test : Pool → Pool × Worker
unfolding take_task
worker_test p = if p.taskqueue_cur_size == 0 then (p, Worker.waiting) else take_task p

-- threadpool_runtask from the lock to the unlock, or to pthread_cond_wait.
pub runtask_enter : Pool → Pool × Worker
unfolding worker_test
runtask_enter p = if p.shutdown then (p, Worker.exited) else worker_test p

-- threadpool_runtask from a return of pthread_cond_wait on.
pub runtask_wake : Pool → Pool × Worker
unfolding worker_test
runtask_wake p =
    if p.shutdown
    then (p, Worker.exited)
    else if ltb 0 p.wait_exit_thread_num
    then (record p { wait_exit_thread_num = p.wait_exit_thread_num - 1 }, Worker.exited)
    else worker_test p

-- The two updates of cur_work_num around the task's call.
pub runtask_begin : Pool → Pool
runtask_begin p = record p { cur_work_num = p.cur_work_num + 1 }

pub runtask_finish : Pool → Pool
runtask_finish p = record p { cur_work_num = p.cur_work_num - 1 }

-- Where threadpool_manage stands: before its lock, in the loop that adds threads, and returned.
pub data Manager : Type 0 where
  passing : Manager
  adding : (cur_num : ℕ) → Manager
  finished : Manager

-- One pass from the lock on: the pool, where the manager goes on, and whether it still has the lock.
-- The pass that neither adds nor removes threads has no unlock.
pub manage_pass : Pool → Pool × Manager × Bool
manage_pass p =
    if p.shutdown
    then (p, finished, false)
    else if (p.cur_work_num == p.cur_thread_num)
        && (ltb 0 p.taskqueue_cur_size && ltb p.cur_thread_num p.max_thread_num)
    then (p, adding p.cur_thread_num, false)
    else if ltb (p.cur_work_num * 2) p.cur_thread_num && ltb p.min_thread_num p.cur_thread_num
    then (record p { wait_exit_thread_num = default_add_del_thread }, passing, false)
    else (p, passing, true)

-- The loop that adds threads; `rounds` is taskqueue_max_size - i. It gives the slots and the number
-- of threads started.
pub adding_loop : (tid : ℕ → ℕ) (cur_num max rounds i accumulate : ℕ) → List ℕ → List ℕ × ℕ
adding_loop tid cur_num max zero i acc ts = (ts, acc)
adding_loop tid cur_num max (suc k) i acc ts =
    let free = get_or ts i 0 == 0 in
    let rest =
      adding_loop tid cur_num max k (i + 1) (if free then acc + 1 else acc)
        (if free then set ts i (tid acc) else ts) in
    if ltb acc default_add_del_thread && ltb (cur_num + acc) max then rest else (ts, acc)

-- The loop and the locked update of cur_thread_num behind it.
pub manage_add : (tid : ℕ → ℕ) → Pool → (cur_num : ℕ) → Pool × ℕ
unfolding adding_loop
manage_add tid p cur_num =
    let (ts, acc) =
      adding_loop tid cur_num p.max_thread_num p.taskqueue_max_size 0 0 p.threads_id in
    (record p { threads_id = ts; cur_thread_num = cur_num + acc }, acc)

-- The locked write of threadpool_destroy.
pub destroy_locked : Pool → Pool
destroy_locked p = record p { shutdown = true }
