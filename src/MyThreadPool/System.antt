-- ===== src/MyThreadPool/System.antt =====
-- thread/mythreadpool/thread_pool.c: the pool with the threads that use it, interleaved in any order.
-- A step is one piece of one thread. A piece under `lock` needs the lock to be free, and every piece
-- gives it back but a pass of the manager that ends without an unlock.
use advanced_programming_in.Base.{
  ℕ, ◌≡◌, Bool, false, some, List, [], ◌∷◌, ◌++◌, get_elem?, set, replicate,
}
use advanced_programming_in.MyThreadPool.{
  Pool, Task, addtask_locked, Adder, Worker, runtask_enter, runtask_wake, runtask_begin,
  runtask_finish, Manager, manage_pass, manage_add, destroy_locked,
}

-- `held`: the manager has kept the lock. `taken` are the tasks that workers have fetched.
pub record System : Type 0 where
  pub pool : Pool
  pub workers : List Worker
  pub adders : List Adder
  pub manager : Manager
  pub held : Bool
  pub taken : List Task

-- The state when threadpool_create returns.
abbrev pub initial : Pool → System
initial p = record {
  pool = p;
  workers = replicate p.min_thread_num Worker.looping;
  adders = [];
  manager = Manager.passing;
  held = false;
  taken = [];
}

abbrev pub takes : Worker → List Task
takes (Worker.got t) = t ∷ []
takes w = []

abbrev pub after_add : System → ℕ → Pool × Adder → System
after_add s i (p, a) = record s { pool = p; adders = set s.adders i a }

abbrev pub after_worker : System → ℕ → Pool × Worker → System
after_worker s i (p, w) = record s {
  pool = p;
  workers = set s.workers i w;
  taken = s.taken ++ takes w;
}

abbrev pub after_pass : System → Pool × Manager × Bool → System
after_pass s (p, m, held) = record s { pool = p; manager = m; held = held }

abbrev pub after_adding : System → Pool × ℕ → System
after_adding s (p, n) = record s {
  pool = p;
  workers = s.workers ++ replicate n Worker.looping;
  manager = Manager.passing;
}

pub data Step (s : System) : System → Type 0 where
  call : (t : Task) → Step s (record s { adders = s.adders ++ Adder.entering t ∷ [] })
  add_enter :
      (i : ℕ) (t : Task)
      → s.held ≡ false
      → get_elem? s.adders i ≡ some (Adder.entering t)
      → Step s (after_add s i (addtask_locked s.pool t))
  add_wake :
      (i : ℕ) (t : Task)
      → s.held ≡ false
      → get_elem? s.adders i ≡ some (Adder.waiting t)
      → Step s (after_add s i (addtask_locked s.pool t))
  enter :
      (i : ℕ)
      → s.held ≡ false
      → get_elem? s.workers i ≡ some Worker.looping
      → Step s (after_worker s i (runtask_enter s.pool))
  wake :
      (i : ℕ)
      → s.held ≡ false
      → get_elem? s.workers i ≡ some Worker.waiting
      → Step s (after_worker s i (runtask_wake s.pool))
  begin :
      (i : ℕ) (t : Task)
      → get_elem? s.workers i ≡ some (Worker.got t)
      → Step s (after_worker s i (runtask_begin s.pool, Worker.working t))
  finish :
      (i : ℕ) (t : Task)
      → get_elem? s.workers i ≡ some (Worker.working t)
      → Step s (after_worker s i (runtask_finish s.pool, Worker.looping))
  pass : s.held ≡ false → s.manager ≡ Manager.passing → Step s (after_pass s (manage_pass s.pool))
  add_threads :
      (cur_num : ℕ) (tid : ℕ → ℕ)
      → s.held ≡ false
      → s.manager ≡ Manager.adding cur_num
      → Step s (after_adding s (manage_add tid s.pool cur_num))
  destroy : s.held ≡ false → Step s (record s { pool = destroy_locked s.pool })

pub data Reach (s : System) : System → Type 0 where
  here : Reach s s
  next : {t u : System} → Reach s t → Step t u → Reach s u
