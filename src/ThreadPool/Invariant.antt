-- ===== src/ThreadPool/Invariant.antt =====
-- thread/thread_pool/thread_pool.c: the counters of threads, step by step.
use advanced_programming_in.Base.{
  ap, sym, ◌∙◌, ◌-◌, false, ℕ, ◌+◌, ◌≤◌, ◌<◌, ◌≡◌, refl, some, arith, get_elem?, replicate, total,
  total-set, total-append, total-replicate, weight-le-total,
}
use advanced_programming_in.ThreadPool.{
  Pool, Task, add_store, add_locked, Worker, take_task, worker_enter, worker_wake, worker_begin,
  worker_finish, manager_grow, manager_trim, destroy_request,
}
use advanced_programming_in.ThreadPool.Resize.{manager_grow_lem}
use advanced_programming_in.ThreadPool.System.{System, after_worker, after_grow, Step}

abbrev pub is_busy : Worker → ℕ
is_busy (Worker.working _) = 1
is_busy _ = 0

-- The threads that have not ended, and those that have ended for a shutdown.
abbrev pub is_alive : Worker → ℕ
is_alive Worker.retired = 0
is_alive Worker.shut_down = 0
is_alive _ = 1

abbrev pub is_shut : Worker → ℕ
is_shut Worker.shut_down = 1
is_shut _ = 0

-- What the two counters of the pool count, and the range of the number of live threads.
pub record IsCounted (s : System) : Type 0 where
  pub busy : s.pool.busy_thr_num ≡ total is_busy s.workers
  pub live : s.pool.live_thr_num ≡ total is_alive s.workers + total is_shut s.workers + s.refused
  pub unended : s.pool.shutdown ≡ false → total is_shut s.workers ≡ 0
  pub low : s.pool.min_thr_num ≤ s.pool.live_thr_num
  pub high : s.pool.live_thr_num ≤ s.pool.max_thr_num

-- What the worker's pieces do to the counters.
record Counts (p : Pool) (w : Worker) (p' : Pool) (w' : Worker) : Type 0 where
  busy : p'.busy_thr_num + is_busy w ≡ p.busy_thr_num + is_busy w'
  live : p'.live_thr_num + is_alive w + is_shut w ≡ p.live_thr_num + is_alive w' + is_shut w'
  still : p'.shutdown ≡ p.shutdown
  unended : p.shutdown ≡ false → is_shut w' ≡ 0
  low : p.min_thr_num ≤ p.live_thr_num → p'.min_thr_num ≤ p'.live_thr_num
  high : p.live_thr_num ≤ p.max_thr_num → p'.live_thr_num ≤ p'.max_thr_num

worker_enter-Counts :
    (p : Pool) (w : Worker)
    → is_busy w ≡ 0
    → is_alive w ≡ 1
    → is_shut w ≡ 0
    → Counts p w (worker_enter p).0 (worker_enter p).1
unfolding worker_enter take_task
worker_enter-Counts p w b c d = ground arith

worker_wake-Counts : (p : Pool) → Counts p Worker.waiting (worker_wake p).0 (worker_wake p).1
unfolding worker_wake worker_enter take_task
worker_wake-Counts p = ground arith

worker_begin-Counts :
    (p : Pool) (t : Task) → Counts p (Worker.got t) (worker_begin p) (Worker.working t)
unfolding worker_begin
worker_begin-Counts p t = ground arith

worker_finish-Counts :
    (p : Pool) (t : Task)
    → 0 < p.busy_thr_num
    → Counts p (Worker.working t) (worker_finish p) Worker.looping
unfolding worker_finish
worker_finish-Counts p t h = ground arith

after_grow-IsCounted :
    (s : System) (live busy refused : ℕ) (r : Pool × ℕ)
    → IsCounted s
    → refused ≤ r.1
    → (r.0 ≡ record s.pool { threads = r.0.threads; live_thr_num = s.pool.live_thr_num + r.1 })
      × (s.pool.live_thr_num + r.1 ≤ s.pool.max_thr_num)
    → IsCounted (after_grow s live busy refused r)
after_grow-IsCounted s live busy refused (p, n) inv some_refused (e, h) =
    let live_now = ap (λ (q : Pool). q.live_thr_num) e in
    let busy_now = ap (λ (q : Pool). q.busy_thr_num) e in
    let min_now = ap (λ (q : Pool). q.min_thr_num) e in
    let max_now = ap (λ (q : Pool). q.max_thr_num) e in
    let looping = replicate (n - refused) Worker.looping in
    record {
      busy = omega (
        arith,
        busy_now,
        inv.busy,
        total-append is_busy s.workers looping,
        total-replicate is_busy (n - refused) Worker.looping,
      );
      live = omega (
        arith,
        live_now,
        inv.live,
        some_refused,
        total-append is_alive s.workers looping,
        total-replicate is_alive (n - refused) Worker.looping,
        total-append is_shut s.workers looping,
        total-replicate is_shut (n - refused) Worker.looping,
      );
      unended = λ up. omega (
        arith,
        inv.unended (sym (ap (λ (q : Pool). q.shutdown) e) ∙ up),
        total-append is_shut s.workers looping,
        total-replicate is_shut (n - refused) Worker.looping,
      );
      low = omega (arith, inv.low, live_now, min_now);
      high = omega (arith, h, live_now, max_now);
    }

after_worker-IsCounted :
    (s : System) (i : ℕ) (w : Worker) (r : Pool × Worker)
    → IsCounted s
    → get_elem? s.workers i ≡ some w
    → Counts s.pool w r.0 r.1
    → IsCounted (after_worker s i r)
after_worker-IsCounted s i w (p, w') inv at c = record {
  busy = omega (arith, total-set is_busy s.workers i w w' at);
  live =
      omega (arith, total-set is_alive s.workers i w w' at, total-set is_shut s.workers i w w' at);
  unended = λ up.
      let up0 = sym c.still ∙ up in
      omega (
        arith,
        total-set is_shut s.workers i w w' at,
        inv.unended up0,
        c.unended up0,
        weight-le-total is_shut s.workers i w at,
      );
  low = c.low inv.low;
  high = c.high inv.high;
}

-- Every step keeps the counters.
pub Step-IsCounted : {s t : System} → Step s t → IsCounted s → IsCounted t
unfolding add_locked add_store manager_trim destroy_request
Step-IsCounted {s} (Step.enter i at) inv =
    after_worker-IsCounted s i Worker.looping _ inv at
      (worker_enter-Counts s.pool Worker.looping refl refl refl)
Step-IsCounted {s} (Step.wake i at) inv =
    after_worker-IsCounted s i Worker.waiting _ inv at (worker_wake-Counts s.pool)
Step-IsCounted {s} (Step.begin i t at) inv =
    after_worker-IsCounted s i (Worker.got t) _ inv at (worker_begin-Counts s.pool t)
Step-IsCounted {s} (Step.finish i t at) inv =
    after_worker-IsCounted s i (Worker.working t) _ inv at (
      worker_finish-Counts s.pool t
        (omega (arith, inv.busy, weight-le-total is_busy s.workers i (Worker.working t) at)))
Step-IsCounted {s} (Step.grow queue_size live busy refused alive tid at some_refused) inv =
    after_grow-IsCounted s live busy refused (manager_grow alive tid s.pool queue_size live) inv
      some_refused
      (
        (manager_grow_lem alive tid s.pool queue_size live inv.high).1,
        (manager_grow_lem alive tid s.pool queue_size live inv.high).2,
      )
Step-IsCounted (Step.call t) inv = record {
  busy = inv.busy;
  live = inv.live;
  unended = inv.unended;
  low = inv.low;
  high = inv.high;
}
Step-IsCounted st inv = let unended = inv.unended in ground arith
