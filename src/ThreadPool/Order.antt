-- ===== src/ThreadPool/Order.antt =====
-- thread/thread_pool/thread_pool.c: the order in which tasks are stored and fetched, step by step.
use advanced_programming_in.Base.{
  ℕ, zero, suc, ◌≡◌, refl, sym, ap, ◌∙◌, inl, inr, Bool, true, false, some, List, [], ◌∷◌, ◌++◌,
  append_assoc, append-nil, arith, get_elem?,
}
use advanced_programming_in.ThreadPool.{
  Pool, Task, add_store, add_locked, Adder, Worker, worker_begin, worker_finish, Manager,
  manager_grow, manager_trim, destroy_request,
}
use advanced_programming_in.ThreadPool.Queue.{contents, IsRing, add_locked-Enqueues}
use advanced_programming_in.ThreadPool.System.{
  System, accepts, takes, after_add, after_late_add, after_worker, Step,
}
use advanced_programming_in.ThreadPool.Pieces.{
  IsRing-counters, Fetches, worker_enter-Fetches, worker_wake-Fetches, worker_enter-shutdown,
  worker_wake-shutdown, add_locked-shutdown, add_locked-unlocked, late-set,
}

-- `late`: a thread gets behind the unlock of threadpool_add's shutdown test only after a shutdown.
pub record IsOrdered (s : System) : Type 0 where
  pub late :
      (i : ℕ) (t : Task) → get_elem? s.adders i ≡ some (Adder.unlocked t) → s.pool.shutdown ≡ true
  pub ring : s.pool.shutdown ≡ false → IsRing s.pool
  pub fifo : s.pool.shutdown ≡ false → s.accepted ≡ s.taken ++ contents s.pool

abbrev Takes : System → Pool × Worker → Type 0
Takes s r = (r.0.shutdown ≡ s.pool.shutdown) × ((s.pool.shutdown ≡ false) → Fetches s.pool r)

after_worker-IsOrdered :
    (s : System) (i : ℕ) (r : Pool × Worker)
    → IsOrdered s
    → Takes s r
    → IsOrdered (after_worker s i r)
after_worker-IsOrdered s i (p, w) inv (same, fetch) = record {
  late = λ j t at. same ∙ inv.late j t at;
  ring = λ up. (fetch (sym same ∙ up)).1;
  fifo = λ up.
      inv.fifo (sym same ∙ up)
      ∙ rw ((fetch (sym same ∙ up)).0) (sym (append_assoc s.taken (takes w) (contents p)));
}

after_add-IsOrdered : (s : System) (i : ℕ) (t : Task) → IsOrdered s → IsOrdered (after_add s i t)
after_add-IsOrdered s i t inv = record {
  late =
      late-set s.adders i (add_locked s.pool t).1 _
        (λ j u at. add_locked-shutdown s.pool t ∙ inv.late j u at)
        (λ u e. add_locked-shutdown s.pool t ∙ add_locked-unlocked s.pool t u e);
  ring = λ up. (stored (sym (add_locked-shutdown s.pool t) ∙ up)).1;
  fifo = λ up. (stored (sym (add_locked-shutdown s.pool t) ∙ up)).0;
}
  where
    stored :
        s.pool.shutdown ≡ false
        → (s.accepted ++ accepts (add_locked s.pool t).1
            ≡ s.taken ++ contents (add_locked s.pool t).0)
          × IsRing (add_locked s.pool t).0
    stored up = elim (add_locked-Enqueues s.pool (inv.ring up) t up) [
      | inl (full, same, a) ↦ rw (same, a) (append-nil s.accepted ∙ inv.fifo up, inv.ring up)
      | inr (room, order, a, ring) ↦
          rw (a, order) (rw (inv.fifo up) (append_assoc s.taken (contents s.pool) (t ∷ [])), ring)
    ]

after_late_add-IsOrdered :
    (s : System) (i : ℕ) (t : Task)
    → get_elem? s.adders i ≡ some (Adder.unlocked t)
    → IsOrdered s
    → IsOrdered (after_late_add s i t)
unfolding add_store
after_late_add-IsOrdered s i t at inv = record {
  late = λ j u e. inv.late i t at;
  ring = λ up. cc (inv.late i t at);
  fifo = λ up. cc (inv.late i t at);
}

unlocked_before :
    (adders : List Adder) (j : ℕ) (t u : Task)
    → get_elem? (adders ++ Adder.entering t ∷ []) j ≡ some (Adder.unlocked u)
    → get_elem? adders j ≡ some (Adder.unlocked u)
unlocked_before [] zero t u e = cc
unlocked_before [] (suc j) t u e = cc
unlocked_before (a ∷ adders) zero t u e = e
unlocked_before (a ∷ adders) (suc j) t u e = unlocked_before adders j t u e

-- The manager changes only the slots and counters.
abbrev Resized : Pool → Pool → Type 0
Resized p p' = p' ≡ record p {
  threads = p'.threads;
  live_thr_num = p'.live_thr_num;
  wait_exit_thr_num = p'.wait_exit_thr_num;
}

manager_grow_counters :
    (alive : ℕ → Bool) (tid : ℕ → ℕ) (p : Pool) (queue_size live : ℕ)
    → Resized p (manager_grow alive tid p queue_size live).0
unfolding manager_grow
manager_grow_counters alive tid p queue_size live = ground arith

manager_trim_counters : (p : Pool) (live busy : ℕ) → Resized p (manager_trim p live busy)
unfolding manager_trim
manager_trim_counters p live busy = ground arith

Resized-IsOrdered :
    (s : System) (p : Pool) (workers : List Worker) (manager : Manager) (refused : ℕ)
    → IsOrdered s
    → Resized s.pool p
    → IsOrdered (record s { pool = p; workers = workers; manager = manager; refused = refused })
Resized-IsOrdered s p workers manager refused inv e = record {
  late = λ j u at. down ∙ inv.late j u at;
  ring = λ up. rw e (
      IsRing-counters s.pool p.threads p.live_thr_num s.pool.busy_thr_num p.wait_exit_thr_num
        (inv.ring (sym down ∙ up)));
  fifo = λ up. inv.fifo (sym down ∙ up) ∙ ap (λ c. s.taken ++ c) (sym (ap contents e));
}
  where
    down : p.shutdown ≡ s.pool.shutdown
    down = ap (λ (q : Pool). q.shutdown) e

-- Every step keeps the order.
pub Step-IsOrdered : {s t : System} → Step s t → IsOrdered s → IsOrdered t
unfolding worker_begin worker_finish manager_trim destroy_request
Step-IsOrdered {s} (Step.enter i at) inv =
    after_worker-IsOrdered s i _ inv
      (worker_enter-shutdown s.pool, λ up. worker_enter-Fetches s.pool (inv.ring up) up)
Step-IsOrdered {s} (Step.wake i at) inv =
    after_worker-IsOrdered s i _ inv
      (worker_wake-shutdown s.pool, λ up. worker_wake-Fetches s.pool (inv.ring up) up)
Step-IsOrdered {s} (Step.begin i t at) inv =
    after_worker-IsOrdered s i _ inv
      (refl, λ up. (refl, IsRing-counters s.pool _ _ _ _ (inv.ring up)))
Step-IsOrdered {s} (Step.finish i t at) inv =
    after_worker-IsOrdered s i _ inv
      (refl, λ up. (refl, IsRing-counters s.pool _ _ _ _ (inv.ring up)))
Step-IsOrdered {s} (Step.add_enter i t at) inv = after_add-IsOrdered s i t inv
Step-IsOrdered {s} (Step.add_wake i t at) inv = after_add-IsOrdered s i t inv
Step-IsOrdered {s} (Step.add_late i t at) inv = after_late_add-IsOrdered s i t at inv
Step-IsOrdered {s} (Step.destroy) inv = record {
  late = λ j u e. refl;
  ring = λ up. cc;
  fifo = λ up. cc;
}
Step-IsOrdered {s} (Step.call t) inv = record {
  late = λ j u e. inv.late j u (unlocked_before s.adders j t u e);
  ring = inv.ring;
  fifo = inv.fifo;
}
Step-IsOrdered {s} (Step.grow queue_size live busy refused alive tid at few) inv =
    Resized-IsOrdered s _ _ _ _ inv (manager_grow_counters alive tid s.pool queue_size live)
Step-IsOrdered {s} (Step.trim live busy at) inv =
    Resized-IsOrdered s _ _ _ _ inv (manager_trim_counters s.pool live busy)
Step-IsOrdered {s} (Step.check at) inv = record {
  late = inv.late;
  ring = inv.ring;
  fifo = inv.fifo;
}
Step-IsOrdered {s} (Step.sample at) inv = record {
  late = inv.late;
  ring = inv.ring;
  fifo = inv.fifo;
}
Step-IsOrdered {s} (Step.count q l at) inv = record {
  late = inv.late;
  ring = inv.ring;
  fifo = inv.fifo;
}
