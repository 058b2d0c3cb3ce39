-- ===== src/MyThreadPool/Locked.antt =====
-- thread/mythreadpool/thread_pool.c: the lock that the manager keeps.
use advanced_programming_in.Base.{ℕ, ◌<◌, ◌≡◌, refl, ◌∙◌, true, [], arith, total, weight-le-total}
use advanced_programming_in.MyThreadPool.{threadpool_create, Worker}
use advanced_programming_in.MyThreadPool.System.{System, initial, Step, Reach, here, next}
use advanced_programming_in.MyThreadPool.Stuck.{
  has_task, IsIdle, initial-IsIdle, Reach-IsIdle, no_task_runs,
}

Step-held :
    {s t : System}
    → Step s t
    → IsIdle s
    → s.held ≡ true
    → (t.pool ≡ s.pool) × (t.workers ≡ s.workers) × (t.held ≡ true)
Step-held (Step.call t) inv held = (refl, refl, held)
Step-held (Step.add_enter i t free at) inv held = absurd (ground arith)
Step-held (Step.add_wake i t free at) inv held = absurd (ground arith)
Step-held (Step.enter i free at) inv held = absurd (ground arith)
Step-held (Step.wake i free at) inv held = absurd (ground arith)
Step-held {s} (Step.begin i t at) inv held =
    absurd (omega (arith, inv.workers, weight-le-total has_task s.workers i (Worker.got t) at))
Step-held {s} (Step.finish i t at) inv held =
    absurd (omega (arith, inv.workers, weight-le-total has_task s.workers i (Worker.working t) at))
Step-held (Step.pass free at) inv held = absurd (ground arith)
Step-held (Step.add_threads cur_num tid free at) inv held = absurd (ground arith)
Step-held (Step.destroy free) inv held = absurd (ground arith)

-- Once the manager of a created pool has kept the lock, no worker gets any further: whatever steps
-- follow, the pool and all workers stay as they are and the lock stays held.
locked_forever :
    (min max queue_max old_wait_exit : ℕ) (tid : ℕ → ℕ)
    → 0 < queue_max
    → {s t : System} → Reach (initial (threadpool_create min max queue_max old_wait_exit tid)) s
    → s.held ≡ true
    → Reach s t
    → (t.pool ≡ s.pool) × (t.workers ≡ s.workers) × (t.held ≡ true)
locked_forever min max queue_max old_wait_exit tid some_room r held here = (refl, refl, held)
locked_forever min max queue_max old_wait_exit tid some_room r held (next more st) =
    let (pool, workers, held') =
      locked_forever min max queue_max old_wait_exit tid some_room r held more in
    let start = initial-IsIdle min max queue_max old_wait_exit tid some_room in
    let (pool', workers', held'') = Step-held st (Reach-IsIdle more (Reach-IsIdle r start)) held' in
    (pool' ∙ pool, workers' ∙ workers, held'')

-- Whatever is added to a created pool with room for a task, and in whatever order its threads run:
-- the count of queued tasks stays 0, and no worker ever fetches or runs a task. And once its manager
-- has kept the lock no worker gets any further: whatever steps follow, the pool and all workers stay
-- as they are and the lock stays held.
pub stuck_lem :
    (min max queue_max old_wait_exit : ℕ) (tid : ℕ → ℕ)
    → 0 < queue_max
    → {s : System} → Reach (initial (threadpool_create min max queue_max old_wait_exit tid)) s
    → ((s.pool.taskqueue_cur_size ≡ 0) × (s.taken ≡ []) × (total has_task s.workers ≡ 0))
      × (s.held ≡ true
          → (t : System) → Reach s t
          → (t.pool ≡ s.pool) × (t.workers ≡ s.workers) × (t.held ≡ true))
stuck_lem min max queue_max old_wait_exit tid some_room r = (
  no_task_runs min max queue_max old_wait_exit tid some_room r,
  λ held t more. locked_forever min max queue_max old_wait_exit tid some_room r held more,
)
