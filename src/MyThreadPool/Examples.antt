-- ===== src/MyThreadPool/Examples.antt =====
-- thread/mythreadpool/thread_pool.c: tests, and the theorems at a concrete pool.
use advanced_programming_in.Base.{ℕ, ◌+◌, ◌≡◌, refl, true, [], ◌∷◌, arith, total}
use advanced_programming_in.MyThreadPool.{
  Pool, Task, threadpool_create, addtask_locked, Adder, runtask_enter, Manager, manage_pass,
}
use advanced_programming_in.MyThreadPool.System.{
  System, initial, after_add, after_worker, after_pass, Step, Reach, here, next,
}
use advanced_programming_in.MyThreadPool.Stuck.{has_task, addtask_never_waits, pass_keeps_lock}
use advanced_programming_in.MyThreadPool.Locked.{stuck_lem}

abbrev task : ℕ → Task
task n = record { func = 7; arg = n }

-- Two to four threads, a queue of one task.
abbrev pool : Pool
pool = threadpool_create 2 4 1 0 (λ i. i + 100)

-- A second task is written over the first one.
overwritten : (addtask_locked (addtask_locked pool (task 1)).0 (task 2)).0.taskqueue ≡ task 2 ∷ []
unfolding addtask_locked threadpool_create
overwritten = refl

-- A task is added, and a worker looks for it.
abbrev called : System
called = record (initial pool) { adders = Adder.entering (task 1) ∷ [] }

abbrev added : System
added = after_add called 0 (addtask_locked pool (task 1))

abbrev looked : System
looked = after_worker added 0 (runtask_enter added.pool)

looked_reached : Reach (initial pool) looked
unfolding threadpool_create
looked_reached =
    next (next (next here (Step.call (task 1))) (Step.add_enter 0 (task 1) refl refl))
      (Step.enter 0 refl refl)

looked_never_waits :
    ((addtask_locked looked.pool (task 2)).1 ≡ Adder.returned (task 2))
    × ((addtask_locked looked.pool (task 2)).0.taskqueue_cur_size ≡ 0)
looked_never_waits =
    addtask_never_waits 2 4 1 0 (λ i. i + 100) (omega arith) looked_reached (task 2)

looked_keeps_lock : manage_pass looked.pool ≡ (looked.pool, Manager.passing, true)
unfolding addtask_locked threadpool_create runtask_enter
looked_keeps_lock = pass_keeps_lock 2 4 1 0 (λ i. i + 100) (omega arith) looked_reached refl

-- The manager's first pass.
abbrev locked : System
locked = after_pass (initial pool) (manage_pass pool)

locked_reached : Reach (initial pool) locked
locked_reached = next here (Step.pass refl refl)

stuck_lem_example :
    ((locked.pool.taskqueue_cur_size ≡ 0)
      × (locked.taken ≡ [])
      × (total has_task locked.workers ≡ 0))
    × (locked.held ≡ true
        → (t : System) → Reach locked t
        → (t.pool ≡ locked.pool) × (t.workers ≡ locked.workers) × (t.held ≡ true))
stuck_lem_example = stuck_lem 2 4 1 0 (λ i. i + 100) (omega arith) {s = locked} locked_reached
