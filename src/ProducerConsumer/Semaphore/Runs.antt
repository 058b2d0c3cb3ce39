-- ===== src/ProducerConsumer/Semaphore/Runs.antt =====
-- process/semaphore/produecr_consumer/main.c: the states that the threads reach.
use advanced_programming_in.Base.{
  take-set-beyond, take-set-next, take-last, get_elem?-get_or, ℕ, ap, ◌+◌, ◌-◌, ◌%◌, ◌≤◌, ◌<◌, ◌≡◌,
  refl, sym, ◌∙◌, ◌⊎◌, some, [], ◌∷◌, ◌++◌, arith, length, get_or, set, take, length-set, total,
  total-append, ◌==◌, if◌then◌else◌,
}
use advanced_programming_in.ProducerConsumer.{capacity, product, weigh, is_outside}
use advanced_programming_in.ProducerConsumer.Semaphore.{
  Cells, produce, consume, System, initial, after_produce, after_consume, Step, Reach, here, next,
}

-- The array as a stack of `n` values. A stack of MAX values has i = 0, as an empty one has.
pub record IsStack (n : ℕ) (c : Cells) : Type 0 where
  pub room : length c.queue ≡ capacity
  pub top : c.i ≡ n % capacity

module _ (n : ℕ) (c : Cells) (inv : IsStack n c) where
  produce-IsStack : (rand : ℕ) → n < capacity → IsStack (n + 1) (produce c rand)
  unfolding produce
  produce-IsStack rand lt = record {
    room = length-set c.queue c.i (product rand) ∙ inv.room;
    top = omega (arith, inv.top);
  }

  contents-produce :
      (rand : ℕ)
      → n < capacity
      → take (n + 1) (produce c rand).queue ≡ take n c.queue ++ product rand ∷ []
  unfolding produce
  contents-produce rand lt =
      let e : c.i ≡ n = omega (arith, inv.top) in
      rw e (take-set-next c.queue n (product rand) (omega (arith, inv.room)))

  consume_lem :
      0 < n
      → n ≤ capacity
      → consume c
        ≡ (record { queue = set c.queue (n - 1) 0; i = n - 1 }, some (get_or c.queue (n - 1) 0))
  unfolding consume
  consume_lem some_value few =
      let e : (if c.i == 0 then capacity else c.i) ≡ n = ground (arith, inv.top) in
      rw e (rw (get_elem?-get_or c.queue (n - 1) 0 (omega (arith, inv.room))) refl)

  contents-consume :
      0 < n
      → n ≤ capacity
      → take n c.queue ≡ take (n - 1) (set c.queue (n - 1) 0) ++ get_or c.queue (n - 1) 0 ∷ []
  contents-consume some_value few =
      take-last c.queue n 0 some_value (omega (arith, inv.room))
      ∙ ap (λ r. r ++ get_or c.queue (n - 1) 0 ∷ [])
          (sym (take-set-beyond c.queue (n - 1) (n - 1) 0 (omega arith)))

-- `n` values are in the array. Each free cell stands for a unit of empty_sem or for a thread between
-- two of its operations, each value for a unit of full_sem or for such a thread.
record Holds (n made read : ℕ) (s : System) : Type 0 where
  stack : IsStack n s.cells
  free : s.empty + s.producers.inside + n + s.consumers.finished ≡ capacity
  used : n ≡ s.full + s.producers.finished + s.consumers.inside
  all_producers : s.producers.outside + s.producers.inside + s.producers.finished ≡ made
  all_consumers : s.consumers.outside + s.consumers.inside + s.consumers.finished ≡ read
  kept : (w : ℕ → ℕ) → total w s.stored ≡ total (weigh w) s.printed + total w (take n s.cells.queue)
  inside : total is_outside s.printed ≡ 0

module _ {n made read : ℕ} (s : System) (h : Holds n made read s) where
  after_produce-Holds :
      (rand : ℕ) → 0 < s.producers.inside → Holds (n + 1) made read (after_produce s rand)
  after_produce-Holds rand some_inside =
      let lt : n < capacity = omega (arith, h.free) in
      record {
        stack = produce-IsStack n s.cells h.stack rand lt;
        free = omega (arith, h.free);
        used = omega (arith, h.used);
        all_producers = omega (arith, h.all_producers);
        all_consumers = h.all_consumers;
        kept = λ w. rw (contents-produce n s.cells h.stack rand lt) (
            omega (
              arith,
              h.kept w,
              total-append w s.stored (product rand ∷ []),
              total-append w (take n s.cells.queue) (product rand ∷ []),
            ));
        inside = h.inside;
      }

  after_consume-Holds :
      0 < s.consumers.inside → Holds (n - 1) made read (after_consume s (consume s.cells))
  after_consume-Holds some_inside =
      let some_value : 0 < n = omega (arith, h.used) in
      let few : n ≤ capacity = omega (arith, h.free) in
      let v = get_or s.cells.queue (n - 1) 0 in
      rw (consume_lem n s.cells h.stack some_value few) (record {
        stack = record {
          room = length-set s.cells.queue (n - 1) 0 ∙ h.stack.room;
          top = omega arith;
        };
        free = omega (arith, h.free);
        used = omega (arith, h.used);
        all_producers = h.all_producers;
        all_consumers = omega (arith, h.all_consumers);
        kept = λ w. omega (
          arith,
          h.kept w,
          total-append (weigh w) s.printed (some v ∷ []),
          ap (total w) (contents-consume n s.cells h.stack some_value few),
          total-append w (take (n - 1) (set s.cells.queue (n - 1) 0)) (v ∷ []),
        );
        inside = omega (arith, h.inside, total-append is_outside s.printed (some v ∷ []));
      })

Step-Holds :
    {made read : ℕ} {s t : System}
    → Step s t
    → (n : ℕ) → Holds n made read s
    → (m : ℕ) × Holds m made read t
Step-Holds {s = s} (Step.store rand some_inside) n h =
    (n + 1, after_produce-Holds s h rand some_inside)
Step-Holds {s = s} (Step.fetch some_inside) n h = (n - 1, after_consume-Holds s h some_inside)
Step-Holds (Step.wait_empty some_empty some_outside) n h = (n, ground arith)
Step-Holds (Step.post_full some_finished) n h = (n, ground arith)
Step-Holds (Step.wait_full some_full some_outside) n h = (n, ground arith)
Step-Holds (Step.post_empty some_finished) n h = (n, ground arith)

initial-Holds : (made read : ℕ) → Holds 0 made read (initial made read)
initial-Holds made read = record {
  stack = record { room = refl; top = refl };
  free = refl;
  used = refl;
  all_producers = omega arith;
  all_consumers = omega arith;
  kept = λ w. refl;
  inside = refl;
}

Reach-Holds :
    {made read : ℕ} {s : System} → Reach (initial made read) s → (n : ℕ) × Holds n made read s
Reach-Holds {made} {read} here = (0, initial-Holds made read)
Reach-Holds (next r st) = let (n, h) = Reach-Holds r in Step-Holds st n h

module _ {producers consumers : ℕ} {s : System} (r : Reach (initial producers consumers) s) where
  -- In every state that the threads reach, for some number n of at most MAX, the first n cells of
  -- the array hold the values stored and not printed yet, as the weights of the values show: for
  -- every weight, the stored values weigh as much as the printed ones and those n together. The
  -- index i is n modulo MAX. A producer that may store has a free cell, a consumer that may print
  -- has a value, and no printed value was read outside the array.
  pub each_value_in_place :
      (n : ℕ) × (n ≤ capacity)
      × (s.cells.i ≡ n % capacity)
      × ((w : ℕ → ℕ)
          → total w s.stored ≡ total (weigh w) s.printed + total w (take n s.cells.queue))
      × (0 < s.producers.inside → n < capacity)
      × (0 < s.consumers.inside → 0 < n)
      × (total is_outside s.printed ≡ 0)
  each_value_in_place =
      let (n, h) = Reach-Holds r in
      (
        n,
        omega (arith, h.free),
        h.stack.top,
        h.kept,
        λ a. omega (arith, h.free),
        λ a. omega (arith, h.used),
        h.inside,
      )

  -- In every state that the threads reach, the two semaphores sum to at most MAX, and with at least
  -- one producer and one consumer some thread can take its next step: it passes its sem_wait, or is
  -- past it.
  pub semaphores_let_go :
      0 < producers
      → 0 < consumers
      → (s.empty + s.full ≤ capacity)
        × (((0 < s.empty) × (0 < s.producers.outside))
            ⊎ (((0 < s.full) × (0 < s.consumers.outside))
                ⊎ (0
                    < s.producers.inside + s.producers.finished + s.consumers.inside
                      + s.consumers.finished)))
  semaphores_let_go some_producer some_consumer =
      let (n, h) = Reach-Holds r in ground (arith, h.free, h.used, h.all_producers, h.all_consumers)
