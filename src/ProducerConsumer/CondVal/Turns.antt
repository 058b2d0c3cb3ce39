-- ===== src/ProducerConsumer/CondVal/Turns.antt =====
-- thread/synchronization/condition_val/producer_consumer.c: a turn of a thread on the array is
-- one on a stack of at most MAX values.
use advanced_programming_in.Base.{
  take-set-beyond, take-set-next, take-last, get_elem?-get_or, ℕ, ap, ◌+◌, ◌-◌, ◌%◌, ◌≤◌, ◌<◌, ◌≡◌,
  refl, sym, ◌∙◌, ◌⊎◌, inl, inr, some, List, [], ◌∷◌, ◌++◌, arith, length, get_elem?, get_or, set,
  take, length-set, ◌==◌, true, false, Bool-cases,
}
use advanced_programming_in.ProducerConsumer.{capacity, product}
use advanced_programming_in.ProducerConsumer.CondVal.{Cells, Produced, Consumed, produce, consume}

-- The values in the array, the oldest first.
abbrev pub contents : Cells → List ℕ
contents c = take c.count c.queue

pub record IsStack (c : Cells) : Type 0 where
  pub room : length c.queue ≡ capacity
  pub top : c.i ≡ c.count
  pub size : c.count ≤ capacity

-- A turn of the producer as one of a bounded stack.
abbrev pub Pushes : (c : Cells) (rand : ℕ) → Cells × Produced → Type 0
Pushes c rand r =
    ((c.count ≡ capacity) × (r ≡ (c, Produced.full)))
    ⊎ ((c.count < capacity)
        × (r.1 ≡ Produced.stored (product rand))
        × (r.0.count ≡ c.count + 1)
        × (contents r.0 ≡ contents c ++ product rand ∷ [])
        × IsStack r.0)

-- A turn of the consumer as one of a bounded stack.
abbrev pub Pops : (c : Cells) → Cells × Consumed → Type 0
Pops c r =
    ((c.count ≡ 0) × (r ≡ (c, Consumed.empty)))
    ⊎ ((v : ℕ) × (r.1 ≡ Consumed.printed (some v))
        × (r.0.count + 1 ≡ c.count)
        × (contents c ≡ contents r.0 ++ v ∷ [])
        × IsStack r.0)

module _ (c : Cells) (inv : IsStack c) where
  produce_full : (rand : ℕ) → (c.count == capacity) ≡ true → produce c rand ≡ (c, Produced.full)
  unfolding produce
  produce_full rand h = rw h refl

  produce_room :
      (rand : ℕ)
      → (c.count == capacity) ≡ false
      → produce c rand ≡ (
        record c {
          queue = set c.queue (c.i % capacity) (product rand);
          count = c.count + 1;
          i = c.i % capacity + 1;
        },
        Produced.stored (product rand),
      )
  unfolding produce
  produce_room rand h = rw h refl

  -- A turn of the producer on the array as a stack.
  pub produce-Pushes : (rand : ℕ) → Pushes c rand (produce c rand)
  produce-Pushes rand = elim (Bool-cases (c.count == capacity)) [
    | inl h ↦ rw (produce_full rand h) (inl (ground arith, refl))
    | inr h ↦
        let lt : c.count < capacity = ground (arith, inv.size) in
        let e : c.i % capacity ≡ c.count = omega (arith, inv.top) in
        rw (produce_room rand h) (
          rw e (
            inr (
              lt,
              refl,
              refl,
              take-set-next c.queue c.count (product rand) (omega (arith, inv.room)),
              record {
                room = length-set c.queue c.count (product rand) ∙ inv.room;
                top = refl;
                size = omega arith;
              },
            )))
  ]

  consume_empty : (c.count == 0) ≡ true → consume c ≡ (c, Consumed.empty)
  unfolding consume
  consume_empty h = rw h refl

  consume_some :
      (c.count == 0) ≡ false
      → consume c ≡ (
        record c { queue = set c.queue (c.count - 1) 0; count = c.count - 1; i = c.count - 1 },
        Consumed.printed (get_elem? c.queue (c.count - 1)),
      )
  unfolding consume
  consume_some h =
      let no : (c.i == 0) ≡ false = ground (arith, inv.top) in rw h (rw no (rw (inv.top) refl))

  -- A turn of the consumer on the array as a stack.
  pub consume-Pops : Pops c (consume c)
  consume-Pops = elim (Bool-cases (c.count == 0)) [
    | inl h ↦ rw (consume_empty h) (inl (ground arith, refl))
    | inr h ↦
        let some_value : 0 < c.count = ground arith in
        let lt : c.count - 1 < length c.queue = omega (arith, inv.room, inv.size) in
        let top = get_or c.queue (c.count - 1) 0 in
        rw (consume_some h) (
          inr (
            top,
            ap (λ o. Consumed.printed o) (get_elem?-get_or c.queue (c.count - 1) 0 lt),
            omega arith,
            take-last c.queue c.count 0 some_value (omega (arith, inv.room, inv.size))
                ∙ ap (λ r. r ++ top ∷ [])
                    (sym (take-set-beyond c.queue (c.count - 1) (c.count - 1) 0 (omega arith))),
            record {
              room = length-set c.queue (c.count - 1) 0 ∙ inv.room;
              top = refl;
              size = omega (arith, inv.size);
            },
          ))
  ]

  -- As long as i is the number of stored values, the array is a stack of at most MAX values: a turn
  -- of the producer puts its value on top, or waits if the stack is full; a turn of the consumer
  -- prints the value on top, never one outside the array, and takes it off, or waits if the stack is
  -- empty.
  pub turns_lem : (rand : ℕ) → Pushes c rand (produce c rand) × Pops c (consume c)
  turns_lem rand = (produce-Pushes rand, consume-Pops)
