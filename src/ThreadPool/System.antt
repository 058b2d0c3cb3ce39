-- ===== src/ThreadPool/System.antt =====
-- thread/thread_pool/thread_pool.c: the pool with the threads that use it, interleaved in any order.
-- A step is one piece of one thread: the locks make each piece atomic, and a thread in
-- pthread_cond_wait may come back at any time, as POSIX allows.
use advanced_programming_in.Base.{
  ℕ, ◌+◌, ◌-◌, ◌≤◌, ◌≡◌, Bool, some, List, [], ◌∷◌, ◌++◌, get_elem?, set, replicate,
}
use advanced_programming_in.ThreadPool.{
  Pool, Task, add_store, add_locked, Adder, Worker, worker_enter, worker_wake, worker_begin,
  worker_finish, Manager, manager_check, manager_sample, manager_count, manager_grow, manager_trim,
  destroy_request,
}

-- `accepted` are the tasks that threadpool_add has stored before a shutdown, `taken` those that
-- workers have fetched, both in the order of the calls; `freed` are the pointers given to free, and
-- `refused` counts the calls of pthread_create that have failed, whose result the source ignores.
pub record System : Type 0 where
  pub pool : Pool
  pub workers : List Worker
  pub adders : List Adder
  pub manager : Manager
  pub accepted : List Task
  pub taken : List Task
  pub freed : List ℕ
  pub refused : ℕ

-- The state when threadpool_create returns, where `refused` calls of pthread_create have failed: each
-- thread that it started stands at its beginning.
abbrev pub initial : Pool → (refused : ℕ) → System
initial p refused = record {
  pool = p;
  workers = replicate (p.min_thr_num - refused) Worker.looping;
  adders = [];
  manager = Manager.checking;
  accepted = [];
  taken = [];
  freed = [];
  refused = refused;
}

abbrev pub accepts : Adder → List Task
accepts (Adder.returned t) = t ∷ []
accepts a = []

abbrev pub takes : Worker → List Task
takes (Worker.got t) = t ∷ []
takes w = []

-- What the shared state becomes when thread `i` inside threadpool_add gets to the lock.
abbrev pub after_add : System → ℕ → Task → System
after_add s i t =
    let (p, a, freed) = add_locked s.pool t in
    record s {
      pool = p;
      adders = set s.adders i a;
      accepted = s.accepted ++ accepts a;
      freed = s.freed ++ freed;
    }

-- The writes of threadpool_add behind the unlock of its shutdown test.
abbrev pub after_late_add : System → ℕ → Task → System
after_late_add s i t =
    let (p, freed) = add_store s.pool t in
    record s { pool = p; adders = set s.adders i (Adder.returned t); freed = s.freed ++ freed }

abbrev pub after_worker : System → ℕ → Pool × Worker → System
after_worker s i (p, w) = record s {
  pool = p;
  workers = set s.workers i w;
  taken = s.taken ++ takes w;
}

-- What the shared state becomes when `refused` of the calls of pthread_create fail.
abbrev pub after_grow : System → (live busy refused : ℕ) → Pool × ℕ → System
after_grow s live busy refused (p, added) = record s {
  pool = p;
  workers = s.workers ++ replicate (added - refused) Worker.looping;
  refused = s.refused + refused;
  manager = Manager.trimming live busy;
}

pub data Step (s : System) : System → Type 0 where
  call : (t : Task) → Step s (record s { adders = s.adders ++ Adder.entering t ∷ [] })
  add_enter :
      (i : ℕ) (t : Task) → get_elem? s.adders i ≡ some (Adder.entering t) → Step s (after_add s i t)
  add_wake :
      (i : ℕ) (t : Task) → get_elem? s.adders i ≡ some (Adder.waiting t) → Step s (after_add s i t)
  add_late :
      (i : ℕ) (t : Task)
      → get_elem? s.adders i ≡ some (Adder.unlocked t)
      → Step s (after_late_add s i t)
  enter :
      (i : ℕ)
      → get_elem? s.workers i ≡ some Worker.looping
      → Step s (after_worker s i (worker_enter s.pool))
  wake :
      (i : ℕ)
      → get_elem? s.workers i ≡ some Worker.waiting
      → Step s (after_worker s i (worker_wake s.pool))
  begin :
      (i : ℕ) (t : Task)
      → get_elem? s.workers i ≡ some (Worker.got t)
      → Step s (after_worker s i (worker_begin s.pool, Worker.working t))
  finish :
      (i : ℕ) (t : Task)
      → get_elem? s.workers i ≡ some (Worker.working t)
      → Step s (after_worker s i (worker_finish s.pool, Worker.looping))
  check : s.manager ≡ Manager.checking → Step s (record s { manager = manager_check s.pool })
  sample : s.manager ≡ Manager.sampling → Step s (record s { manager = manager_sample s.pool })
  count :
      (queue_size live : ℕ)
      → s.manager ≡ Manager.counting queue_size live
      → Step s (record s { manager = manager_count s.pool queue_size live })
  grow :
      (queue_size live busy refused : ℕ) (alive : ℕ → Bool) (tid : ℕ → ℕ)
      → s.manager ≡ Manager.growing queue_size live busy
      → refused ≤ (manager_grow alive tid s.pool queue_size live).1
      → Step s (after_grow s live busy refused (manager_grow alive tid s.pool queue_size live))
  trim :
      (live busy : ℕ)
      → s.manager ≡ Manager.trimming live busy
      → Step s (record s { pool = manager_trim s.pool live busy; manager = Manager.checking })
  destroy : Step s (record s { pool = destroy_request s.pool })

pub data Reach (s : System) : System → Type 0 where
  here : Reach s s
  next : {t u : System} → Reach s t → Step t u → Reach s u
