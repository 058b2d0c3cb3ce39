-- ===== src/ThreadPool/Pieces.antt =====
-- thread/thread_pool/thread_pool.c: what the pieces of a thread do to the queue and to the flag.
use advanced_programming_in.Base.{
  ℕ, subst, ◌-◌, ◌<◌, ◌≡◌, refl, sym, ◌∙◌, inl, inr, Bool, true, false, some, List, ◌++◌, arith,
  length, get_elem?, set, Bool-cases, length-set, get_elem?-set_ne, get_elem?-set_self, ltb,
  lt-length_of_get_elem?,
}
use native.Mathlib.Decide.{ℕ_discrete}
use advanced_programming_in.ThreadPool.{
  Pool, Task, add_store, add_locked, Adder, Worker, take_task, worker_enter, worker_wake,
}
use advanced_programming_in.ThreadPool.Queue.{contents, IsRing, worker_enter-Dequeues}
use advanced_programming_in.ThreadPool.System.{takes}

-- The counters have no part in the queue.
pub IsRing-counters :
    (p : Pool) (ts : List ℕ) (live busy wait : ℕ)
    → IsRing p
    → IsRing (record p {
      threads = ts;
      live_thr_num = live;
      busy_thr_num = busy;
      wait_exit_thr_num = wait;
    })
IsRing-counters p ts live busy wait h = record {
  room = h.room;
  front = h.front;
  size = h.size;
  rear = h.rear;
}

-- A worker's piece takes what it returns from the front of the queue.
abbrev pub Fetches : Pool → Pool × Worker → Type 0
Fetches p (p', w) = (contents p ≡ takes w ++ contents p') × IsRing p'

pub worker_enter-Fetches : (p : Pool) → IsRing p → p.shutdown ≡ false → Fetches p (worker_enter p)
worker_enter-Fetches p h up = elim (worker_enter-Dequeues p h up) [
  | inl (empty, same, w) ↦ rw (same, w) (refl, h)
  | inr (t, order, w, ring) ↦ rw w (order, ring)
]

pub worker_wake-Fetches : (p : Pool) → IsRing p → p.shutdown ≡ false → Fetches p (worker_wake p)
unfolding worker_wake
worker_wake-Fetches p h up =
    let h' =
      IsRing-counters p p.threads p.live_thr_num p.busy_thr_num (p.wait_exit_thr_num - 1) h in
    elim (Bool-cases (ltb 0 p.wait_exit_thr_num)) [
      | inl ask ↦ elim (Bool-cases (ltb p.min_thr_num p.live_thr_num)) [
        | inl spare ↦
            simp (ask, spare)
              (
                refl,
                IsRing-counters p p.threads (p.live_thr_num - 1) p.busy_thr_num
                    (p.wait_exit_thr_num - 1) h,
              )
        | inr needed ↦
            simp (ask, needed)
              (worker_enter-Fetches (record p { wait_exit_thr_num = p.wait_exit_thr_num - 1 }) h'
                up)
      ]
      | inr none_ ↦ simp none_ (worker_enter-Fetches p h up)
    ]

pub worker_enter-shutdown : (p : Pool) → (worker_enter p).0.shutdown ≡ p.shutdown
unfolding worker_enter take_task
worker_enter-shutdown p = ground arith

pub worker_wake-shutdown : (p : Pool) → (worker_wake p).0.shutdown ≡ p.shutdown
unfolding worker_wake worker_enter take_task
worker_wake-shutdown p = ground arith

pub add_locked-shutdown : (p : Pool) (t : Task) → (add_locked p t).0.shutdown ≡ p.shutdown
unfolding add_locked add_store
add_locked-shutdown p t = ground arith

pub add_locked-unlocked :
    (p : Pool) (t u : Task) → (add_locked p t).1 ≡ Adder.unlocked u → p.shutdown ≡ true
unfolding add_locked
add_locked-unlocked p t u = ground arith

-- A change of one thread inside threadpool_add.
pub late-set :
    (adders : List Adder) (i : ℕ) (a : Adder) (down : Bool)
    → ((j : ℕ) (t : Task) → get_elem? adders j ≡ some (Adder.unlocked t) → down ≡ true)
    → ((t : Task) → a ≡ Adder.unlocked t → down ≡ true)
    → (j : ℕ) (t : Task) → get_elem? (set adders i a) j ≡ some (Adder.unlocked t)
    → down ≡ true
late-set adders i a down others own j t at = elim (ℕ_discrete i j) [
  | yes e ↦
      let lt : i < length adders =
        omega (arith, lt-length_of_get_elem? (set adders i a) j _ at, length-set adders i a) in
      let at' : get_elem? (set adders i a) i ≡ some (Adder.unlocked t) =
        subst (λ k. get_elem? (set adders i a) k ≡ some (Adder.unlocked t)) (sym e) at in
      own t (cc (get_elem?-set_self adders i a lt))
  | no n ↦ others j t (sym (get_elem?-set_ne adders i j a n) ∙ at)
]
