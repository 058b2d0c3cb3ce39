-- ===== src/ThreadPool/Shutdown.antt =====
-- thread/thread_pool/thread_pool.c: what the workers and threadpool_add do once threadpool_destroy has
-- set its flag.
use advanced_programming_in.Base.{◌+◌, ◌≡◌, true, [], arith, get_or, get_or-set_self}
use advanced_programming_in.ThreadPool.{Pool, Task, null_task, add_store, add_locked, Adder}
use advanced_programming_in.ThreadPool.Queue.{IsRing}
use advanced_programming_in.ThreadPool.System.{System}

-- A threadpool_add that finds the pool shut down does not give up: it unlocks and stores its task
-- all the same. If the queue is full, the store overwrites the oldest task, and the size passes
-- queue_max_size.
pub late_add_overflows :
    (p : Pool) (t : Task)
    → IsRing p
    → p.shutdown ≡ true
    → p.queue_size ≡ p.queue_max_size
    → (add_locked p t ≡ (p, Adder.unlocked t, []))
      × (get_or (add_store p t).0.task_queue p.queue_front null_task ≡ t)
      × ((add_store p t).0.queue_size ≡ p.queue_max_size + 1)
unfolding add_locked add_store
late_add_overflows p t h down full = (
  ground arith,
  (let e : p.queue_front ≡ p.queue_rear = omega (arith, h.rear, h.front) in
      rw e (get_or-set_self p.task_queue p.queue_rear t null_task (omega (arith, h.rear, h.room)))),
  omega arith,
)
