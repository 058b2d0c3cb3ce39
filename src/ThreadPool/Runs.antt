-- ===== src/ThreadPool/Runs.antt =====
-- thread/thread_pool/thread_pool.c: the pool that threadpool_create returns, and every state that its
-- threads reach from there.
use advanced_programming_in.Base.{
  ◌-◌, Bool-cases, Option-cases, ℕ, zero, suc, ◌+◌, ◌≤◌, ◌<◌, ◌≡◌, refl, sym, ◌∙◌, inl, inr, true,
  false, some, List, [], ◌++◌, arith, length, get_or, set, length-set, get_or-set_self,
  get_or-set_ne, total-replicate,
}
use advanced_programming_in.ThreadPool.{
  Pool, Task, null_task, Allocation, start_threads, init_pool, threadpool_create, Worker,
}
use native.Mathlib.Decide.{dec_lt}
use advanced_programming_in.Ring
use advanced_programming_in.ThreadPool.Queue.{contents, IsRing, length-contents}
use advanced_programming_in.ThreadPool.System.{System, initial, Reach, here, next}
use advanced_programming_in.ThreadPool.Invariant.{
  is_busy, is_alive, is_shut, IsCounted, Step-IsCounted,
}
use advanced_programming_in.ThreadPool.Order.{IsOrdered, Step-IsOrdered}

-- malloc returns arrays of the lengths asked for.
pub record IsAllocated (max queue_max : ℕ) (m : Allocation) : Type 0 where
  pub slots : (ts : List ℕ) → m.threads ≡ some ts → length ts ≡ max
  pub cells : (q : List Task) → m.task_queue ≡ some q → length q ≡ queue_max

-- What threadpool_create has built when it does not return NULL.
record Built (min max queue_max : ℕ) (m : Allocation) (p : Pool) : Type 0 where
  slots : List ℕ
  cells : List Task
  slots_given : m.threads ≡ some slots
  cells_given : m.task_queue ≡ some cells
  ready : m.locks_ready ≡ true
  pool : p ≡ init_pool min max queue_max m slots cells

create-Built :
    (min max queue_max : ℕ) (m : Allocation) (p : Pool)
    → threadpool_create min max queue_max (some m) ≡ some p
    → Built min max queue_max m p
unfolding threadpool_create
create-Built min max queue_max m p e = elim (Option-cases m.threads) [
  | inl a ↦ absurd (ground arith)
  | inr (ts, a) ↦ elim (Option-cases m.task_queue) [
    | inl b ↦ absurd (ground arith)
    | inr (q, b) ↦ elim (Bool-cases m.locks_ready) [
      | inr c ↦ absurd (ground arith)
      | inl c ↦ record {
        slots = ts;
        cells = q;
        slots_given = a;
        cells_given = b;
        ready = c;
        pool = ground arith;
      }
    ]
  ]
]

start_threads-before :
    (k i j : ℕ) (tid : ℕ → ℕ) (ts : List ℕ)
    → j < i
    → get_or (start_threads k i tid ts) j 0 ≡ get_or ts j 0
unfolding start_threads
start_threads-before zero i j tid ts h = refl
start_threads-before (suc k) i j tid ts h =
    start_threads-before k (i + 1) j tid (set ts i (tid i)) (omega arith)
    ∙ get_or-set_ne ts i j (tid i) 0 (omega arith)

start_threads-at :
    (k i j : ℕ) (tid : ℕ → ℕ) (ts : List ℕ)
    → i ≤ j
    → j < i + k
    → i + k ≤ length ts
    → get_or (start_threads k i tid ts) j 0 ≡ tid j
unfolding start_threads
start_threads-at zero i j tid ts lo hi fits = absurd (omega arith)
start_threads-at (suc k) i j tid ts lo hi fits = elim (dec_lt i j) [
  | yes later ↦
      start_threads-at k (i + 1) j tid (set ts i (tid i)) (omega arith) (omega arith)
        (omega (arith, length-set ts i (tid i)))
  | no first ↦
      let e : j ≡ i = omega arith in
      start_threads-before k (i + 1) j tid (set ts i (tid i)) (omega arith)
      ∙ rw e (get_or-set_self ts i (tid i) 0 (omega arith))
]

Reach-IsCounted_from : {s t : System} → Reach s t → IsCounted s → IsCounted t
Reach-IsCounted_from here h = h
Reach-IsCounted_from (next r st) h = Step-IsCounted st (Reach-IsCounted_from r h)

Reach-IsOrdered_from : {s t : System} → Reach s t → IsOrdered s → IsOrdered t
Reach-IsOrdered_from here h = h
Reach-IsOrdered_from (next r st) h = Step-IsOrdered st (Reach-IsOrdered_from r h)

module _ (min max queue_max : ℕ) (m : Allocation) (p : Pool) (alloc : IsAllocated max queue_max m)
    (made : threadpool_create min max queue_max (some m) ≡ some p) (few : min ≤ max)
    (some_room : 0 < queue_max) (refused : ℕ) where
  -- The pool that threadpool_create returns has an empty queue over queue_max_size cells, counts
  -- min_thr_num live threads and no busy one, and holds the ids of the threads that it started.
  create_lem :
      IsRing p
      × (contents p ≡ [])
      × (p.live_thr_num ≡ min)
      × (p.busy_thr_num ≡ 0)
      × (p.shutdown ≡ false)
      × ((i : ℕ) → i < min → get_or p.threads i 0 ≡ m.tid i)
  unfolding init_pool
  create_lem =
      let b = create-Built min max queue_max m p made in
      rw (b.pool) (
        record {
          room = alloc.cells b.cells b.cells_given;
          front = some_room;
          size = omega arith;
          rear = (some_room, inl refl);
        },
        Ring.window-zero null_task b.cells queue_max 0,
        refl,
        refl,
        refl,
        λ i h.
            start_threads-at min 0 i m.tid (set b.slots 0 0) (omega arith) (omega arith)
              (omega (arith, length-set b.slots 0 0, alloc.slots b.slots b.slots_given)),
      )

  initial-IsCounted : refused ≤ min → IsCounted (initial p refused)
  unfolding init_pool
  initial-IsCounted some_refused =
      let b = create-Built min max queue_max m p made in
      rw b.pool (record {
        busy = omega (arith, total-replicate is_busy (min - refused) Worker.looping);
        live = omega (
          arith,
          some_refused,
          total-replicate is_alive (min - refused) Worker.looping,
          total-replicate is_shut (min - refused) Worker.looping,
        );
        unended = λ up. omega (arith, total-replicate is_shut (min - refused) Worker.looping);
        low = omega arith;
        high = omega arith;
      })

  initial-IsOrdered : IsOrdered (initial p refused)
  initial-IsOrdered = record {
    late = λ i t at. cc;
    ring = λ up. create_lem.0;
    fifo = λ up. sym create_lem.1;
  }

  -- In every state that the threads of a created pool reach, when at most min_thr_num of the calls of
  -- pthread_create in threadpool_create have failed: busy_thr_num is the number of workers that run a
  -- task. live_thr_num is the number of workers that have not ended, with the calls of pthread_create
  -- that have failed and, after a shutdown only, with the workers that have ended for it. It lies
  -- between min_thr_num and max_thr_num.
  pub Reach-IsCounted : {s : System} → refused ≤ min → Reach (initial p refused) s → IsCounted s
  Reach-IsCounted some_refused r = Reach-IsCounted_from r (initial-IsCounted some_refused)

  -- In every state that the threads of a created pool reach before a shutdown, the tasks that workers
  -- have fetched, followed by those in the queue, are the tasks that threadpool_add has stored, in the
  -- order of the calls: none is lost, doubled or overtaken. The queue never holds more than
  -- queue_max_size tasks.
  pub tasks_in_order :
      {s : System}
      → Reach (initial p refused) s
      → s.pool.shutdown ≡ false
      → (s.accepted ≡ s.taken ++ contents s.pool)
        × (length (contents s.pool) ≤ s.pool.queue_max_size)
  tasks_in_order {s} r up =
      let inv = Reach-IsOrdered_from r initial-IsOrdered in
      (inv.fifo up, omega (arith, length-contents s.pool, (inv.ring up).size))
