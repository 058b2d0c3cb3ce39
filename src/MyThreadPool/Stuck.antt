-- ===== src/MyThreadPool/Stuck.antt =====
-- thread/mythreadpool/thread_pool.c: the states that the threads reach, where threadpool_addtask
-- does not count its tasks and threadpool_manage does not always unlock.
use advanced_programming_in.Base.{
  ℕ, ◌<◌, ◌≡◌, ◌≢◌, refl, ◌∙◌, true, false, some, [], arith, get_elem?, total, total-set,
  total-replicate, weight-le-total,
}
use advanced_programming_in.MyThreadPool.{
  Pool, Task, threadpool_create, addtask_locked, Adder, Worker, runtask_enter, runtask_wake,
  Manager, manage_pass, manage_add, destroy_locked,
}
use advanced_programming_in.MyThreadPool.System.{
  System, initial, takes, after_add, after_worker, Step, Reach, here, next,
}

-- A worker that has a task.
abbrev pub has_task : Worker → ℕ
has_task (Worker.got _) = 1
has_task (Worker.working _) = 1
has_task _ = 0

-- The queue counts no task, and no worker has ever had one.
pub record IsIdle (s : System) : Type 0 where
  pub size : s.pool.taskqueue_cur_size ≡ 0
  pub workers : total has_task s.workers ≡ 0
  pub taken : s.taken ≡ []
  pub work : s.pool.cur_work_num ≡ 0
  pub room : 0 < s.pool.taskqueue_max_size
  pub threads : s.pool.cur_thread_num ≡ s.pool.min_thread_num
  pub manager : (n : ℕ) → s.manager ≢ Manager.adding n

abbrev Idles : Pool → Pool × Worker → Type 0
Idles p (p', w) =
    (p'.taskqueue_cur_size ≡ 0)
    × (has_task w ≡ 0)
    × (takes w ≡ [])
    × (p'.cur_work_num ≡ p.cur_work_num)
    × (p'.taskqueue_max_size ≡ p.taskqueue_max_size)
    × (p'.cur_thread_num ≡ p.cur_thread_num)
    × (p'.min_thread_num ≡ p.min_thread_num)

runtask_enter-Idles : (p : Pool) → p.taskqueue_cur_size ≡ 0 → Idles p (runtask_enter p)
unfolding runtask_enter
runtask_enter-Idles p h = ground arith

runtask_wake-Idles : (p : Pool) → p.taskqueue_cur_size ≡ 0 → Idles p (runtask_wake p)
unfolding runtask_wake
runtask_wake-Idles p h = ground arith

after_worker-IsIdle :
    (s : System) (i : ℕ) (w : Worker) (r : Pool × Worker)
    → IsIdle s
    → get_elem? s.workers i ≡ some w
    → Idles s.pool r
    → IsIdle (after_worker s i r)
after_worker-IsIdle s i w (p, w') inv at (size, none_, no_take, work, room, cur, low) = record {
  size = size;
  workers = omega (arith, total-set has_task s.workers i w w' at, inv.workers);
  taken = rw (no_take, inv.taken);
  work = work ∙ inv.work;
  room = omega arith;
  threads = omega arith;
  manager = inv.manager;
}

after_add-IsIdle :
    (s : System) (i : ℕ) (t : Task) → IsIdle s → IsIdle (after_add s i (addtask_locked s.pool t))
unfolding addtask_locked
after_add-IsIdle s i t inv = record {
  size = ground arith;
  workers = inv.workers;
  taken = inv.taken;
  work = ground arith;
  room = ground arith;
  threads = ground arith;
  manager = inv.manager;
}

-- Every step keeps this.
Step-IsIdle : {s t : System} → Step s t → IsIdle s → IsIdle t
unfolding addtask_locked manage_pass manage_add destroy_locked
Step-IsIdle {s} (Step.enter i free at) inv =
    after_worker-IsIdle s i _ _ inv at (runtask_enter-Idles s.pool inv.size)
Step-IsIdle {s} (Step.wake i free at) inv =
    after_worker-IsIdle s i _ _ inv at (runtask_wake-Idles s.pool inv.size)
Step-IsIdle {s} (Step.begin i t at) inv =
    absurd (omega (arith, inv.workers, weight-le-total has_task s.workers i (Worker.got t) at))
Step-IsIdle {s} (Step.finish i t at) inv =
    absurd (omega (arith, inv.workers, weight-le-total has_task s.workers i (Worker.working t) at))
Step-IsIdle {s} (Step.add_threads cur_num tid free at) inv = absurd (inv.manager cur_num at)
Step-IsIdle {s} (Step.pass free at) inv = record {
  size = ground arith;
  workers = inv.workers;
  taken = inv.taken;
  work = ground arith;
  room = ground arith;
  threads = ground arith;
  manager = λ n. ground arith;
}
Step-IsIdle {s} (Step.call t) inv = record {
  size = inv.size;
  workers = inv.workers;
  taken = inv.taken;
  work = inv.work;
  room = inv.room;
  threads = inv.threads;
  manager = inv.manager;
}
Step-IsIdle {s} (Step.add_enter i t free at) inv = after_add-IsIdle s i t inv
Step-IsIdle {s} (Step.add_wake i t free at) inv = after_add-IsIdle s i t inv
Step-IsIdle {s} (Step.destroy free) inv = record {
  size = inv.size;
  workers = inv.workers;
  taken = inv.taken;
  work = inv.work;
  room = inv.room;
  threads = inv.threads;
  manager = inv.manager;
}

pub Reach-IsIdle : {s t : System} → Reach s t → IsIdle s → IsIdle t
Reach-IsIdle here inv = inv
Reach-IsIdle (next r st) inv = Step-IsIdle st (Reach-IsIdle r inv)

pub initial-IsIdle :
    (min max queue_max old_wait_exit : ℕ) (tid : ℕ → ℕ)
    → 0 < queue_max
    → IsIdle (initial (threadpool_create min max queue_max old_wait_exit tid))
unfolding threadpool_create
initial-IsIdle min max queue_max old_wait_exit tid h = record {
  size = refl;
  workers = omega (arith, total-replicate has_task min Worker.looping);
  taken = refl;
  work = refl;
  room = h;
  threads = refl;
  manager = λ n e. cc;
}

module _ (min max queue_max old_wait_exit : ℕ) (tid : ℕ → ℕ) (some_room : 0 < queue_max)
    {s : System}
    (r : Reach (initial (threadpool_create min max queue_max old_wait_exit tid)) s) where
  -- Whatever is added to a created pool, and in whatever order its threads run: the count of queued
  -- tasks stays 0, no worker ever fetches or runs a task.
  pub no_task_runs :
      (s.pool.taskqueue_cur_size ≡ 0) × (s.taken ≡ []) × (total has_task s.workers ≡ 0)
  no_task_runs =
      let inv = Reach-IsIdle r (initial-IsIdle min max queue_max old_wait_exit tid some_room) in
      (inv.size, inv.taken, inv.workers)

  -- In such a state threadpool_addtask never waits, however many tasks have been stored: it returns,
  -- and the count of queued tasks is still 0.
  pub addtask_never_waits :
      (t : Task)
      → ((addtask_locked s.pool t).1 ≡ Adder.returned t)
        × ((addtask_locked s.pool t).0.taskqueue_cur_size ≡ 0)
  unfolding addtask_locked
  addtask_never_waits t =
      let inv = Reach-IsIdle r (initial-IsIdle min max queue_max old_wait_exit tid some_room) in
      ground arith

  -- In such a state a pass of threadpool_manage over a pool that is not shut down changes nothing, and
  -- ends without giving the lock back.
  pub pass_keeps_lock :
      s.pool.shutdown ≡ false → manage_pass s.pool ≡ (s.pool, Manager.passing, true)
  unfolding manage_pass
  pass_keeps_lock up =
      let inv = Reach-IsIdle r (initial-IsIdle min max queue_max old_wait_exit tid some_room) in
      ground arith
