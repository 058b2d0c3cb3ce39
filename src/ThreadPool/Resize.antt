-- ===== src/ThreadPool/Resize.antt =====
-- thread/thread_pool/thread_pool.c: how adjust_thread changes the number of threads.
use Prim.Native.Nat.{min}
use advanced_programming_in.Base.{
  ℕ, zero, suc, ◌+◌, ◌-◌, ◌≤◌, ◌<◌, ◌≡◌, refl, inl, inr, Bool, true, false, List, arith, set,
  get_or-set_ne, Bool-cases, ltb, leb, ◌&&◌, if◌then◌else◌,
}
use advanced_programming_in.ThreadPool.{
  Pool, min_wait_task_num, default_thread_vary, Growth, is_free_slot, grow_slot, grow_loop,
  manager_grow,
}

module _ (alive : ℕ → Bool) where
  -- How many of the `k` slots from slot `i` on hold no live thread.
  pub free_slots : List ℕ → (k i : ℕ) → ℕ
  free_slots ts zero i = 0
  free_slots ts (suc k) i = (if is_free_slot alive ts i then 1 else 0) + free_slots ts k (i + 1)

  free_slots-set :
      (ts : List ℕ) (k i j v : ℕ) → j < i → free_slots (set ts j v) k i ≡ free_slots ts k i
  unfolding free_slots is_free_slot
  free_slots-set ts zero i j v h = refl
  free_slots-set ts (suc k) i j v h =
      rw (get_or-set_ne ts j i v 0 (omega arith), free_slots-set ts k (i + 1) j v (omega arith))
        refl

  module _ (tid : ℕ → ℕ) (max : ℕ) where
    abbrev Grows : (k i : ℕ) → Growth → Growth → Type 0
    Grows k i g g' =
        (g'.add
          ≡ g.add
            + min (free_slots g.threads k i) (min (default_thread_vary - g.add) (max - g.live)))
        × (g'.live + g.add ≡ g.live + g'.add)

    grow_slot-free :
        (i : ℕ) (g : Growth)
        → is_free_slot alive g.threads i ≡ true
        → grow_slot alive tid i g
          ≡ record { threads = set g.threads i (tid g.add); add = g.add + 1; live = g.live + 1 }
    unfolding grow_slot
    grow_slot-free i g free = rw free

    grow_slot-taken :
        (i : ℕ) (g : Growth) → is_free_slot alive g.threads i ≡ false → grow_slot alive tid i g ≡ g
    unfolding grow_slot
    grow_slot-taken i g taken = rw taken

    -- The loop starts a thread for each free slot, until one of the two limits is reached.
    grow_loop-Grows :
        (k i : ℕ) (g : Growth)
        → g.add ≤ default_thread_vary
        → g.live ≤ max
        → Grows k i g (grow_loop alive tid max k i g)
    unfolding grow_loop free_slots
    grow_loop-Grows zero i g ha hl = omega arith
    grow_loop-Grows (suc k) i g ha hl =
        elim (Bool-cases (ltb g.add default_thread_vary && ltb g.live max)) [
          | inl go ↦ elim (Bool-cases (is_free_slot alive g.threads i)) [
            | inl free ↦
                let h : Grows k (i + 1) (grow_slot alive tid i g)
                    (grow_loop alive tid max k (i + 1) (grow_slot alive tid i g)) =
                  rw (grow_slot-free i g free)
                    (grow_loop-Grows k (i + 1) _ (ground arith) (ground arith)) in
                ground (
                  arith,
                  h,
                  grow_slot-free i g free,
                  free_slots-set g.threads k (i + 1) i (tid g.add),
                )
            | inr taken ↦ ground (arith, grow_slot-taken i g taken, grow_loop-Grows k (i + 1) g)
          ]
          | inr stop ↦ ground arith
        ]

-- When adjust_thread has read at least MIN_WAIT_TASK_NUM waiting tasks and fewer live threads than
-- the maximum, it starts a thread for each slot without a live thread, but at most
-- DEFAULT_THREAD_VARY and at most as many as the maximum leaves room for; otherwise none. It counts
-- each as alive, the count stays within the maximum, and of the pool only the slots and that count
-- change.
pub manager_grow_lem :
    (alive : ℕ → Bool) (tid : ℕ → ℕ) (p : Pool) (queue_size live : ℕ)
    → p.live_thr_num ≤ p.max_thr_num
    → let (p', n) = manager_grow alive tid p queue_size live in
      (n ≡ (
        if leb min_wait_task_num queue_size && ltb live p.max_thr_num
        then min
            (free_slots alive p.threads p.max_thr_num 0)
            (min default_thread_vary (p.max_thr_num - p.live_thr_num))
        else 0))
      × (p' ≡ record p { threads = p'.threads; live_thr_num = p.live_thr_num + n })
      × (p.live_thr_num + n ≤ p.max_thr_num)
unfolding manager_grow
manager_grow_lem alive tid p queue_size live h = ground (
  arith,
  grow_loop-Grows alive tid p.max_thr_num p.max_thr_num 0
      (record { threads = p.threads; add = 0; live = p.live_thr_num }),
)
