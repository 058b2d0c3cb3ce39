-- ===== src/ProducerConsumer/CondVal/Runs.antt =====
-- thread/synchronization/condition_val/producer_consumer.c: the states that the threads reach.
use advanced_programming_in.Base.{
  ℕ, ap, ◌+◌, ◌≤◌, ◌<◌, ◌≡◌, refl, ◌⊎◌, inl, inr, some, [], ◌∷◌, arith, total, total-append,
}
use advanced_programming_in.ProducerConsumer.{capacity, product, weigh, is_outside}
use advanced_programming_in.ProducerConsumer.CondVal.{
  Cells, Produced, Consumed, produce, consume, System, initial, after_produce, after_consume,
  IsWoken, Step, Reach, here, next,
}
use advanced_programming_in.ProducerConsumer.CondVal.Turns.{
  contents, IsStack, Pushes, Pops, produce-Pushes, consume-Pops,
}

-- The cells are a stack of the values stored and not printed yet. While producers wait, the free
-- cells are no more than the ready producers; while consumers wait, the values are no more than the
-- ready consumers.
record Holds (made read : ℕ) (s : System) : Type 0 where
  stack : IsStack s.cells
  producers : s.producers_ready + s.producers_waiting ≡ made
  consumers : s.consumers_ready + s.consumers_waiting ≡ read
  produce_on : 0 < s.producers_waiting → capacity ≤ s.cells.count + s.producers_ready
  consume_on : 0 < s.consumers_waiting → s.cells.count ≤ s.consumers_ready
  kept : (w : ℕ → ℕ) → total w s.stored ≡ total (weigh w) s.printed + total w (contents s.cells)
  inside : total is_outside s.printed ≡ 0

module _ {made read : ℕ} (s : System) (h : Holds made read s) (woken : ℕ) where
  after_produce-Holds :
      (rand : ℕ) (r : Cells × Produced)
      → 0 < s.producers_ready
      → IsWoken s.consumers_waiting woken
      → Pushes s.cells rand r
      → Holds made read (after_produce s woken r)
  after_produce-Holds rand (c, Produced.full) ready (few, some_woken) (inl (size, e)) =
      let same : c ≡ s.cells = ap (λ r. r.0) e in
      rw same (record {
        stack = h.stack;
        producers = omega (arith, h.producers);
        consumers = h.consumers;
        produce_on = λ w. omega (arith, size);
        consume_on = h.consume_on;
        kept = h.kept;
        inside = h.inside;
      })
  after_produce-Holds rand (c, Produced.full) ready wakes (inr (lt, e, size, more, inv)) = cc
  after_produce-Holds rand (c, Produced.stored v) ready wakes (inl (size, e)) =
      absurd (cc (ap (λ r. r.1) e))
  after_produce-Holds rand (c, Produced.stored v) ready (few, some_woken)
        (inr (lt, e, size, more, inv)) =
      let same : v ≡ product rand = cc in
      record {
        stack = inv;
        producers = h.producers;
        consumers = omega (arith, h.consumers);
        produce_on = λ w. omega (arith, h.produce_on w, size);
        consume_on = λ w. ground (arith, h.consume_on, size);
        kept = λ w. rw same (
            rw more (
              omega (
                arith,
                h.kept w,
                total-append w s.stored (product rand ∷ []),
                total-append w (contents s.cells) (product rand ∷ []),
              )));
        inside = h.inside;
      }

  after_consume-Holds :
      (r : Cells × Consumed)
      → 0 < s.consumers_ready
      → IsWoken s.producers_waiting woken
      → Pops s.cells r
      → Holds made read (after_consume s woken r)
  after_consume-Holds (c, Consumed.empty) ready (few, some_woken) (inl (size, e)) =
      let same : c ≡ s.cells = ap (λ r. r.0) e in
      rw same (record {
        stack = h.stack;
        producers = h.producers;
        consumers = omega (arith, h.consumers);
        produce_on = h.produce_on;
        consume_on = λ w. omega (arith, size);
        kept = h.kept;
        inside = h.inside;
      })
  after_consume-Holds (c, Consumed.empty) ready wakes (inr (v, e, size, less, inv)) = cc
  after_consume-Holds (c, Consumed.printed o) ready wakes (inl (size, e)) =
      absurd (cc (ap (λ r. r.1) e))
  after_consume-Holds (c, Consumed.printed o) ready (few, some_woken)
        (inr (v, e, size, less, inv)) =
      let same : o ≡ some v = cc in
      rw same (record {
        stack = inv;
        producers = omega (arith, h.producers);
        consumers = h.consumers;
        produce_on = λ w. ground (arith, h.produce_on, size);
        consume_on = λ w. omega (arith, h.consume_on w, size);
        kept = λ w. omega (
          arith,
          h.kept w,
          total-append (weigh w) s.printed (some v ∷ []),
          ap (total w) less,
          total-append w (contents c) (v ∷ []),
        );
        inside = omega (arith, h.inside, total-append is_outside s.printed (some v ∷ []));
      })

Step-Holds : {made read : ℕ} {s t : System} → Step s t → Holds made read s → Holds made read t
Step-Holds {s = s} (Step.produce_turn rand woken ready wakes) h =
    after_produce-Holds s h woken rand (produce s.cells rand) ready wakes
      (produce-Pushes s.cells h.stack rand)
Step-Holds {s = s} (Step.consume_turn woken ready wakes) h =
    after_consume-Holds s h woken (consume s.cells) ready wakes (consume-Pops s.cells h.stack)
Step-Holds (Step.wake_producer some_waiting) h = record {
  stack = h.stack;
  producers = omega (arith, h.producers);
  consumers = h.consumers;
  produce_on = λ w. omega (arith, h.produce_on some_waiting);
  consume_on = h.consume_on;
  kept = h.kept;
  inside = h.inside;
}
Step-Holds (Step.wake_consumer some_waiting) h = record {
  stack = h.stack;
  producers = h.producers;
  consumers = omega (arith, h.consumers);
  produce_on = h.produce_on;
  consume_on = λ w. omega (arith, h.consume_on some_waiting);
  kept = h.kept;
  inside = h.inside;
}

initial-Holds : (made read : ℕ) → Holds made read (initial made read)
initial-Holds made read = record {
  stack = record { room = refl; top = refl; size = omega arith };
  producers = omega arith;
  consumers = omega arith;
  produce_on = λ w. absurd (omega arith);
  consume_on = λ w. absurd (omega arith);
  kept = λ w. refl;
  inside = refl;
}

Reach-Holds : {made read : ℕ} {s : System} → Reach (initial made read) s → Holds made read s
Reach-Holds {made} {read} here = initial-Holds made read
Reach-Holds (next r st) = Step-Holds st (Reach-Holds r)

module _ {producers consumers : ℕ} {s : System} (r : Reach (initial producers consumers) s) where
  -- In every state that the threads reach, i is the number of values in the array, and each value
  -- that producers have stored has been printed once or is still in the array: for every weight of
  -- the values, the stored ones weigh as much as the printed ones and those in the array together.
  -- No printed value was read outside the array.
  pub each_value_once :
      (s.cells.i ≡ s.cells.count)
      × (s.cells.count ≤ capacity)
      × ((w : ℕ → ℕ) → total w s.stored ≡ total (weigh w) s.printed + total w (contents s.cells))
      × (total is_outside s.printed ≡ 0)
  each_value_once = let h = Reach-Holds r in (h.stack.top, h.stack.size, h.kept, h.inside)

  -- With at least one producer and one consumer, in every state that they reach a ready thread can
  -- store or print a value in its next turn: no signal is lost, and the threads never all wait.
  pub never_stuck :
      0 < producers
      → 0 < consumers
      → ((0 < s.producers_ready) × (s.cells.count < capacity))
        ⊎ ((0 < s.consumers_ready) × (0 < s.cells.count))
  never_stuck some_producer some_consumer =
      let h = Reach-Holds r in
      ground (arith, h.producers, h.consumers, h.produce_on, h.consume_on, h.stack.size)
