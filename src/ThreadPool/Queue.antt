-- ===== src/ThreadPool/Queue.antt =====
-- thread/thread_pool/thread_pool.c: the task queue as a circular array, seen as a list of tasks.
use advanced_programming_in.Base.{
  ℕ, ◌≤◌, ◌<◌, ◌≡◌, refl, ◌⊎◌, inl, inr, Bool-cases, true, false, List, [], ◌∷◌, ◌++◌, arith,
  length, get_or, length-set, ◌==◌,
}
use advanced_programming_in.Ring
use advanced_programming_in.Ring.{Follows, window}
use advanced_programming_in.ThreadPool.{
  Pool, Task, null_task, add_store, add_locked, Adder, Worker, take_task, worker_enter,
}

-- The tasks in the queue, the oldest first.
abbrev pub contents : Pool → List Task
contents p = window null_task p.task_queue p.queue_max_size p.queue_front p.queue_size

-- The indices describe a circular array of queue_max_size cells.
pub record IsRing (p : Pool) : Type 0 where
  pub room : length p.task_queue ≡ p.queue_max_size
  pub front : p.queue_front < p.queue_max_size
  pub size : p.queue_size ≤ p.queue_max_size
  pub rear : Follows p.queue_max_size p.queue_front p.queue_size p.queue_rear

pub length-contents : (p : Pool) → length (contents p) ≡ p.queue_size
length-contents p =
    Ring.length-window null_task p.task_queue p.queue_max_size p.queue_front p.queue_size

-- What threadpool_add does to the list of tasks in a pool that is not shut down.
abbrev pub Enqueues : Pool → Task → Pool × Adder × List ℕ → Type 0
Enqueues p t (p', a, _) =
    ((length (contents p) ≡ p.queue_max_size) × (p' ≡ p) × (a ≡ Adder.waiting t))
    ⊎ ((length (contents p) < p.queue_max_size)
        × (contents p' ≡ contents p ++ t ∷ [])
        × (a ≡ Adder.returned t)
        × IsRing p')

-- What a worker does to it.
abbrev pub Dequeues : Pool → Pool × Worker → Type 0
Dequeues p (p', w) =
    ((contents p ≡ []) × (p' ≡ p) × (w ≡ Worker.waiting))
    ⊎ ((t : Task) × (contents p ≡ t ∷ contents p') × (w ≡ Worker.got t) × IsRing p')

contents-eq-nil : (p : Pool) → p.queue_size ≡ 0 → contents p ≡ []
contents-eq-nil p e = rw e (Ring.window-zero null_task p.task_queue p.queue_max_size p.queue_front)

-- The branches of the two critical sections.
add_locked_full :
    (p : Pool) (t : Task)
    → (p.queue_size == p.queue_max_size) ≡ true
    → p.shutdown ≡ false
    → add_locked p t ≡ (p, Adder.waiting t, [])
unfolding add_locked
add_locked_full p t full up = rw (full, up)

add_locked_free :
    (p : Pool) (t : Task)
    → (p.queue_size == p.queue_max_size) ≡ false
    → p.shutdown ≡ false
    → add_locked p t ≡ ((add_store p t).0, Adder.returned t, (add_store p t).1)
unfolding add_locked
add_locked_free p t free up = rw (free, up)

worker_enter_idle :
    (p : Pool)
    → (p.queue_size == 0) ≡ true
    → p.shutdown ≡ false
    → worker_enter p ≡ (p, Worker.waiting)
unfolding worker_enter
worker_enter_idle p idle up = rw (idle, up)

worker_enter_busy :
    (p : Pool) → (p.queue_size == 0) ≡ false → p.shutdown ≡ false → worker_enter p ≡ take_task p
unfolding worker_enter
worker_enter_busy p busy up = rw (busy, up)

module _ (p : Pool) (h : IsRing p) where
  add_store-IsRing : (t : Task) → p.queue_size < p.queue_max_size → IsRing (add_store p t).0
  unfolding add_store
  add_store-IsRing t lt = record {
    room = rw (length-set p.task_queue p.queue_rear t) h.room;
    front = h.front;
    size = omega arith;
    rear =
        Ring.Follows-push p.queue_max_size p.queue_front p.queue_size p.queue_rear h.front lt
          h.rear;
  }

  contents-add_store :
      (t : Task)
      → p.queue_size < p.queue_max_size
      → contents (add_store p t).0 ≡ contents p ++ t ∷ []
  unfolding add_store
  contents-add_store t lt =
      Ring.window-push null_task p.task_queue p.queue_max_size p.queue_front p.queue_size
        p.queue_rear t h.room h.front lt h.rear

  take_task-IsRing : 0 < p.queue_size → IsRing (take_task p).0
  unfolding take_task
  take_task-IsRing lt =
      let (next, follows) =
        Ring.Follows-pop p.queue_max_size p.queue_front p.queue_size p.queue_rear h.front lt h.size
          h.rear in
      record { room = h.room; front = next; size = omega arith; rear = follows }

  contents-take_task :
      0 < p.queue_size
      → contents p ≡ get_or p.task_queue p.queue_front null_task ∷ contents (take_task p).0
  unfolding take_task
  contents-take_task lt =
      Ring.window-pop null_task p.task_queue p.queue_max_size p.queue_front p.queue_size lt

  take_task-got : (take_task p).1 ≡ Worker.got (get_or p.task_queue p.queue_front null_task)
  unfolding take_task
  take_task-got = refl

  -- threadpool_add on the queue as a list.
  pub add_locked-Enqueues : (t : Task) → p.shutdown ≡ false → Enqueues p t (add_locked p t)
  add_locked-Enqueues t up = elim (Bool-cases (p.queue_size == p.queue_max_size)) [
    | inl full ↦
        rw (add_locked_full p t full up) (inl (rw (length-contents p) (ground arith), refl, refl))
    | inr free ↦
        let lt : p.queue_size < p.queue_max_size = ground arith in
        rw (add_locked_free p t free up)
          (inr (rw (length-contents p) lt, contents-add_store t lt, refl, add_store-IsRing t lt))
  ]

  -- A worker's piece on the queue as a list.
  pub worker_enter-Dequeues : p.shutdown ≡ false → Dequeues p (worker_enter p)
  worker_enter-Dequeues up = elim (Bool-cases (p.queue_size == 0)) [
    | inl idle ↦
        rw (worker_enter_idle p idle up) (inl (contents-eq-nil p (ground arith), refl, refl))
    | inr busy ↦
        let lt : 0 < p.queue_size = ground arith in
        rw (worker_enter_busy p busy up) (
          inr (
            get_or p.task_queue p.queue_front null_task,
            contents-take_task lt,
            take_task-got,
            take_task-IsRing lt,
          ))
  ]

  -- In a pool that is not shut down, and whose indices describe a circular array, that array is a
  -- queue of bounded length. threadpool_add
  -- waits exactly when it is full, and otherwise puts its task at the end; a worker that has the lock
  -- waits exactly when it is empty, and otherwise gets the oldest task, with the rest in order. A
  -- thread that waits leaves the pool as it is, and the indices always describe a circular array.
  pub queue_lem :
      (t : Task) → p.shutdown ≡ false → Enqueues p t (add_locked p t) × Dequeues p (worker_enter p)
  queue_lem t up = (add_locked-Enqueues t up, worker_enter-Dequeues up)
